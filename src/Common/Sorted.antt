-- ===== src/Common/Sorted.antt =====
-- The `std::map` of the source: an association list in the order of its keys.
use mathlib.Core.Path.{◌≡◌, refl}
use mathlib.Core.Bool.{Bool, true, false, ◌&&◌, ◌||◌}
use mathlib.Core.Option.{Option, none, some}
use mathlib.Core.List.{List, [], ◌∷◌, ◌++◌}
use native.Mathlib.Omega.{arith}
use hft_framework.Common.Tests.{ltb, ◌==◌, if◌then◌else◌}
use hft_framework.Common.Int.{ℤ, ltb_ℤ}
use hft_framework.Common.Strings.{Text}

-- `std::less` of the keys.
pub record Less {ℓ} (K : Type ℓ) : Type ℓ where
  pub lt : K → K → Bool
  pub lt_irrefl : (a : K) → lt a a ≡ false
  pub lt_trans : (a b c : K) → lt a b ≡ true → lt b c ≡ true → lt a c ≡ true
  pub lt_connected : (a b : K) → lt a b ≡ false → lt b a ≡ false → a ≡ b

unfoldable pub text_lt : Text → Text → Bool
text_lt as' [] = false
text_lt [] (b ∷ bs) = true
text_lt (a ∷ as') (b ∷ bs) = ltb a b || (a == b && text_lt as' bs)

pub text_lt_irrefl : (s : Text) → text_lt s s ≡ false
unfolding text_lt
text_lt_irrefl [] = refl
text_lt_irrefl (a ∷ s) = ground (arith, text_lt_irrefl s)

pub text_lt_trans : (s t u : Text) → text_lt s t ≡ true → text_lt t u ≡ true → text_lt s u ≡ true
unfolding text_lt
text_lt_trans s t [] h k = absurd (cc)
text_lt_trans s [] (c ∷ u) h k = absurd (cc)
text_lt_trans [] (b ∷ t) (c ∷ u) h k = refl
text_lt_trans (a ∷ s) (b ∷ t) (c ∷ u) h k = ground (arith, text_lt_trans s t u)

pub text_lt_connected : (s t : Text) → text_lt s t ≡ false → text_lt t s ≡ false → s ≡ t
unfolding text_lt
text_lt_connected [] [] h k = refl
text_lt_connected [] (b ∷ t) h k = absurd (cc)
text_lt_connected (a ∷ s) [] h k = absurd (cc)
text_lt_connected (a ∷ s) (b ∷ t) h k = ground (arith, text_lt_connected s t)

instance abbrev pub Text-Less : Less Text
Text-Less = record {
  lt = text_lt;
  lt_irrefl = text_lt_irrefl;
  lt_trans = text_lt_trans;
  lt_connected = text_lt_connected;
}

pub ltb_ℤ_connected : (a b : ℤ) → ltb_ℤ a b ≡ false → ltb_ℤ b a ≡ false → a ≡ b
ltb_ℤ_connected a b h k = ground arith

pub ltb_ℤ_irrefl : (a : ℤ) → ltb_ℤ a a ≡ false
ltb_ℤ_irrefl a = ground arith

pub ltb_ℤ_trans : (a b c : ℤ) → ltb_ℤ a b ≡ true → ltb_ℤ b c ≡ true → ltb_ℤ a c ≡ true
ltb_ℤ_trans a b c h k = ground arith

instance abbrev pub Int-Less : Less ℤ
Int-Less = record {
  lt = ltb_ℤ;
  lt_irrefl = ltb_ℤ_irrefl;
  lt_trans = ltb_ℤ_trans;
  lt_connected = ltb_ℤ_connected;
}

module _ {ℓ κ} {K : Type ℓ} {V : Type κ} ⦃o : Less K⦄ where
  unfoldable pub find : K → List (K × V) → Option V
  find k [] = none
  find k ((j, v) ∷ m) = if o.lt k j || o.lt j k then find k m else some v

  unfoldable pub put : K → V → List (K × V) → List (K × V)
  put k v [] = (k, v) ∷ []
  put k v ((j, w) ∷ m) =
      let later = (j, w) ∷ put k v m in
      if o.lt k j then (k, v) ∷ (j, w) ∷ m else if o.lt j k then later else (j, v) ∷ m

  -- Every key is above `k`.
  abbrev pub Above : K → List (K × V) → Type 0
  Above k [] = Unit
  Above k ((j, v) ∷ m) = (o.lt k j ≡ true) × Above k m

  -- The keys ascend.
  abbrev pub IsSorted : List (K × V) → Type 0
  IsSorted [] = Unit
  IsSorted ((j, v) ∷ m) = Above j m × IsSorted m

  -- `k` is above every key.
  abbrev pub Below : K → List (K × V) → Type 0
  Below k [] = Unit
  Below k ((j, v) ∷ m) = (o.lt j k ≡ true) × Below k m

  pub find-put :
      (k j : K) (v : V) (m : List (K × V))
      → find j (put k v m) ≡ (if o.lt j k || o.lt k j then find j m else some v)
  unfolding find put
  find-put k j v [] = refl
  find-put k j v ((i, w) ∷ m) =
      ground (arith, find-put k j v m, o.lt_connected j i, o.lt_connected k i, o.lt_connected j k)

  pub Above-trans : (i k : K) (m : List (K × V)) → o.lt i k ≡ true → Above k m → Above i m
  Above-trans i k [] h a = tt
  Above-trans i k ((j, v) ∷ m) h a = (o.lt_trans i k j h a.0, Above-trans i k m h a.1)

  pub Above-put :
      (i k : K) (v : V) (m : List (K × V)) → o.lt i k ≡ true → Above i m → Above i (put k v m)
  unfolding put
  Above-put i k v [] h a = (h, tt)
  Above-put i k v ((j, w) ∷ m) h a = ground (arith, Above-put i k v m)

  pub put-IsSorted : (k : K) (v : V) (m : List (K × V)) → IsSorted m → IsSorted (put k v m)
  unfolding put
  put-IsSorted k v [] s = (tt, tt)
  put-IsSorted k v ((j, w) ∷ m) s =
      ground (arith, put-IsSorted k v m, Above-put j k v m, Above-trans k j m)

  pub put_last : (k : K) (v : V) (m : List (K × V)) → Below k m → put k v m ≡ m ++ (k, v) ∷ []
  unfolding put
  put_last k v [] b = refl
  put_last k v ((j, w) ∷ m) b = ground (arith, put_last k v m, o.lt_irrefl k, o.lt_trans k j k)

  pub find_above_all : (k : K) (m : List (K × V)) → Below k m → find k m ≡ none
  unfolding find
  find_above_all k [] b = refl
  find_above_all k ((j, w) ∷ m) b = ground (arith, find_above_all k m)

  pub Below-append :
      (k j : K) (v : V) (m : List (K × V))
      → o.lt j k ≡ true
      → Below k m
      → Below k (m ++ (j, v) ∷ [])
  Below-append k j v [] h b = (h, tt)
  Below-append k j v ((i, w) ∷ m) h b = (b.0, Below-append k j v m h b.1)

-- The keys of `es` are above those of `m`.
module _ {ℓ κ μ} {K : Type ℓ} {V : Type κ} {W : Type μ} ⦃o : Less K⦄ where
  abbrev pub Follows : List (K × V) → List (K × W) → Type 0
  Follows m [] = Unit
  Follows m ((k, w) ∷ es) = Below k m × Follows m es

  pub Follows-append :
      (k : K) (v : V) (m : List (K × V)) (es : List (K × W))
      → Above k es
      → Follows m es
      → Follows (m ++ (k, v) ∷ []) es
  Follows-append k v m [] a f = tt
  Follows-append k v m ((j, w) ∷ es) a f =
      (Below-append j k v m a.0 f.0, Follows-append k v m es a.1 f.1)

pub Follows-nil {ℓ κ μ} :
    {K : Type ℓ} (V : Type κ) {W : Type μ} ⦃o : Less K⦄ (es : List (K × W)) → Follows {V = V} [] es
Follows-nil V [] = tt
Follows-nil V ((k, w) ∷ es) = (tt, Follows-nil V es)
