-- ===== src/Market.antt =====
-- src/market/order_book.h and src/market/order_book_manager.h: `Book` is the book of one instrument, `Books`
-- the table of them.
pub mod Book
pub mod Books
mod Tests
