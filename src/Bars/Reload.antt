-- ===== src/Bars/Reload.antt =====
-- src/engine/kline_manager.cpp: one bar of the store is read back as it was written, its prices rounded
-- to the fixed point of the file.
use hft_framework.Common.{
  ℕ, ◌^◌, ◌≡◌, refl, ℤ, pos, negsuc, ◌+ℤ◌, ◌-ℤ◌, ◌<ℤ◌, max_ℤ, int_laws, Bool, true, false, some,
  List, ◌++◌, Text, arith,
}
use mathlib.Core.List.{append_assoc}
use hft_framework.Double.{Double}
use hft_framework.Codec.Varint.{to_u64}
use hft_framework.Codec.RoundTrip.{IsI64}
use hft_framework.Codec.Streams.{
  varuint_bytes, varint_bytes, write_varuint_onto, write_varint_onto, read_varuint-bytes,
  read_varint-bytes, to_u64_lt, to_i64-to_u64,
}
use hft_framework.Bars.State.{KlineBar, Calendar, format_kline_time}
use hft_framework.Bars.Store.{
  to_int, Previous, delta, undelta, fixed_price, restore_price, fixed_turnover, restore_turnover,
  bar_before, write_bar, read_bar,
}

undelta-delta :
    (first : Bool) (previous x : ℤ) → undelta first previous (delta first previous x) ≡ x
undelta-delta true previous x = refl
undelta-delta false previous x = omega int_laws

pub add_sub : (a b : ℤ) → a +ℤ (b -ℤ a) ≡ b
add_sub a b = omega int_laws

to_int_lem : (n : ℤ) → n <ℤ pos (2 ^ 31) → to_int (to_u64 (max_ℤ n (pos 0))) ≡ max_ℤ n (pos 0)
unfolding to_int to_u64
to_int_lem (pos n) h = ground arith
to_int_lem (negsuc n) h = ground arith

module _ (d : Double) (llround : d.F → ℤ) (cal : Calendar) where
  open d use {F}

  -- The differences that the store keeps of a bar are numbers of an int64_t, and its volume is that
  -- of an int.
  pub record FitsBar (first : Bool) (before : Previous) (bar : KlineBar F) : Type 0 where
    pub time_fits : IsI64 (delta first before.previous_timestamp bar.timestamp_ms)
    pub open_fits :
        IsI64 (delta first before.previous_close (fixed_price d llround cal bar.open_price))
    pub high_fits :
        IsI64 (fixed_price d llround cal bar.high -ℤ fixed_price d llround cal bar.open_price)
    pub low_fits :
        IsI64 (fixed_price d llround cal bar.low -ℤ fixed_price d llround cal bar.open_price)
    pub close_fits :
        IsI64 (fixed_price d llround cal bar.close -ℤ fixed_price d llround cal bar.open_price)
    pub volume_fits : bar.volume <ℤ pos (2 ^ 31)
    pub turnover_fits :
        IsI64 (delta first before.previous_turnover (fixed_turnover d llround cal bar.turnover))

  -- A bar as the store gives it back.
  abbrev pub stored : Text → KlineBar F → KlineBar F
  stored period bar = record {
    timestamp_ms = bar.timestamp_ms;
    time = format_kline_time cal bar.timestamp_ms period;
    open_price = restore_price d llround cal (fixed_price d llround cal bar.open_price);
    high = restore_price d llround cal (fixed_price d llround cal bar.high);
    low = restore_price d llround cal (fixed_price d llround cal bar.low);
    close = restore_price d llround cal (fixed_price d llround cal bar.close);
    volume = max_ℤ bar.volume (pos 0);
    turnover = restore_turnover d llround cal (fixed_turnover d llround cal bar.turnover);
  }

  pub bar_bytes : Bool → Previous → KlineBar F → List ℕ
  bar_bytes first before bar =
      let open_fixed = fixed_price d llround cal bar.open_price in
      varuint_bytes (to_u64 (delta first before.previous_timestamp bar.timestamp_ms))
      ++ (varint_bytes (delta first before.previous_close open_fixed)
          ++ (varint_bytes (fixed_price d llround cal bar.high -ℤ open_fixed)
              ++ (varint_bytes (fixed_price d llround cal bar.low -ℤ open_fixed)
                  ++ (varint_bytes (fixed_price d llround cal bar.close -ℤ open_fixed)
                      ++ (varuint_bytes (to_u64 (max_ℤ bar.volume (pos 0)))
                          ++ varint_bytes (
                              delta first before.previous_turnover
                                (fixed_turnover d llround cal bar.turnover)))))))

  module _ (first : Bool) (before : Previous) (bar : KlineBar F)
      (f : FitsBar first before bar) where
    pub write_bar_onto :
        (os : List ℕ)
        → write_bar d llround cal first before os bar ≡ os ++ bar_bytes first before bar
    unfolding write_bar bar_bytes
    write_bar_onto os = simp (
      write_varuint_onto _ (to_u64_lt (delta first before.previous_timestamp bar.timestamp_ms)),
      write_varint_onto _ f.open_fits,
      write_varint_onto _ f.high_fits,
      write_varint_onto _ f.low_fits,
      write_varint_onto _ f.close_fits,
      write_varuint_onto _ (to_u64_lt (max_ℤ bar.volume (pos 0))),
      write_varint_onto _ f.turnover_fits,
      append_assoc,
    )

    pub read_bar-bytes :
        (period : Text) (is : List ℕ)
        → read_bar d llround cal period first before (bar_bytes first before bar ++ is)
          ≡ some ((stored period bar, bar_before d llround cal bar), is)
    unfolding read_bar bar_bytes
    read_bar-bytes period is = simp (
      append_assoc,
      read_varuint-bytes _ (to_u64_lt (delta first before.previous_timestamp bar.timestamp_ms)),
      read_varint-bytes _ f.open_fits,
      read_varint-bytes _ f.high_fits,
      read_varint-bytes _ f.low_fits,
      read_varint-bytes _ f.close_fits,
      read_varuint-bytes _ (to_u64_lt (max_ℤ bar.volume (pos 0))),
      read_varint-bytes _ f.turnover_fits,
      to_i64-to_u64 _ f.time_fits,
      to_int_lem bar.volume f.volume_fits,
      undelta-delta,
      add_sub,
    )
