-- ===== src/Prelude/Order.antt =====
-- The order of texts by their characters' numbers, as `str.__lt__`, and stable sorting by a key.
use Prim.Native.Nat.{Ordering, compare as compare_ℕ}
use Prim.Native.Char.{Char, code}
use Prim.Native.String.{
  String, compare, then as next_answer, String.[] as empty_text, String.◌∷◌ as cons_char,
}
use Prim.Native.String.compare as Clauses
use text.Mathlib.Text.{is_lt}
use mathlib.Core.Path.{◌≡◌, refl}
use mathlib.Core.Logic.{◌⊎◌, inl, inr}
use mathlib.Core.Bool.{Bool, true, false}
use mathlib.Core.List.{List, [], ◌∷◌, Memᴰ}
use native.Mathlib.Omega.{arith}
use lingxi_learn.Prelude.Tests.{if◌then◌else◌, Bool-cases}

abbrev pub text_lt : String → String → Bool
text_lt s t = is_lt (compare s t)

compare-cons_cons :
    (c d : Char) (s t : String)
    → compare (cons_char c s) (cons_char d t)
      ≡ next_answer (compare_ℕ (code c) (code d)) (compare s t)
compare-cons_cons c d s t = λ i. Clauses.cons-cons c d s t i

compare-nil_cons : (d : Char) (t : String) → compare empty_text (cons_char d t) ≡ Ordering.lt
compare-nil_cons d t = λ i. Clauses.nil-cons d t i

compare-cons_nil : (c : Char) (s : String) → compare (cons_char c s) empty_text ≡ Ordering.gt
compare-cons_nil c s = λ i. Clauses.cons-nil c s i

pub text_lt_asymm : (s t : String) → text_lt s t ≡ true → text_lt t s ≡ false
text_lt_asymm empty_text empty_text h = ground arith
text_lt_asymm empty_text (cons_char d t) h = ground (arith, compare-cons_nil d t)
text_lt_asymm (cons_char c s) empty_text h = ground (arith, compare-cons_nil c s)
text_lt_asymm (cons_char c s) (cons_char d t) h =
    ground (arith, compare-cons_cons c d s t, compare-cons_cons d c t s, text_lt_asymm s t)

-- The order is total: "not before" is transitive.
pub text_lt_neg_trans :
    (r s t : String) → text_lt r s ≡ false → text_lt s t ≡ false → text_lt r t ≡ false
text_lt_neg_trans empty_text s empty_text h k = ground arith
text_lt_neg_trans (cons_char b r) s empty_text h k = ground (arith, compare-cons_nil b r)
text_lt_neg_trans r empty_text (cons_char d t) h k = ground (arith, compare-nil_cons d t)
text_lt_neg_trans empty_text (cons_char c s) (cons_char d t) h k =
    ground (arith, compare-nil_cons c s)
text_lt_neg_trans (cons_char b r) (cons_char c s) (cons_char d t) h k = ground (
  arith,
  compare-cons_cons b c r s,
  compare-cons_cons c d s t,
  compare-cons_cons b d r t,
  text_lt_neg_trans r s t,
)

-- Python's stable sort by a key whose strict order is `before`.
module _ {ℓ} {A : Type ℓ} (before : A → A → Bool) where
  unfoldable pub insert_by : A → List A → List A
  insert_by a [] = a ∷ []
  insert_by a (x ∷ xs) = if before x a then x ∷ insert_by a xs else a ∷ x ∷ xs

  unfoldable pub sort_by : List A → List A
  unfolding insert_by
  sort_by [] = []
  sort_by (a ∷ xs) = insert_by a (sort_by xs)

-- What `before` must satisfy: it is asymmetric, and "not before" is transitive.
pub record IsKeyOrder {ℓ} {A : Type ℓ} (before : A → A → Bool) : Type ℓ where
  pub asymm : (a b : A) → before a b ≡ true → before b a ≡ false
  pub neg_trans : (a b c : A) → before a b ≡ false → before b c ≡ false → before a c ≡ false

module _ {ℓ} {A : Type ℓ} (before : A → A → Bool) where
  pub insert_by-Memᴰ :
      (a x : A) (xs : List A) → Memᴰ x (insert_by before a xs) → (x ≡ a) ⊎ Memᴰ x xs
  unfolding insert_by
  insert_by-Memᴰ a x [] (Memᴰ.head e) = inl e
  insert_by-Memᴰ a x [] (Memᴰ.tail m) = elim m [ ]
  insert_by-Memᴰ a x (y ∷ ys) m = go (before y a) (insert_by-Memᴰ a x ys) m
    where
      go :
          (b : Bool)
          → (Memᴰ x (insert_by before a ys) → (x ≡ a) ⊎ Memᴰ x ys)
          → Memᴰ x (if b then y ∷ insert_by before a ys else a ∷ y ∷ ys)
          → (x ≡ a) ⊎ Memᴰ x (y ∷ ys)
      go true later (Memᴰ.head e) = inr (Memᴰ.head e)
      go true later (Memᴰ.tail n) = elim (later n) [ inl e ↦ inl e | inr k ↦ inr (Memᴰ.tail k) ]
      go false later (Memᴰ.head e) = inl e
      go false later (Memᴰ.tail n) = inr n

  pub sort_by-Memᴰ : (x : A) (xs : List A) → Memᴰ x (sort_by before xs) → Memᴰ x xs
  unfolding sort_by
  sort_by-Memᴰ x [] m = m
  sort_by-Memᴰ x (a ∷ xs) m = elim (insert_by-Memᴰ a x (sort_by before xs) m) [
    | inl e ↦ Memᴰ.head e
    | inr k ↦ Memᴰ.tail (sort_by-Memᴰ x xs k)
  ]

  pub sort_by_nil : (x : A) (xs : List A) → sort_by before xs ≡ [] → ¬ Memᴰ x xs
  unfolding sort_by insert_by
  sort_by_nil x [] e m = elim m [ ]
  sort_by_nil x (a ∷ xs) e m = go (sort_by before xs) e
    where
      go : (s : List A) → insert_by before a s ≡ [] → ⊥
      go [] f = cc
      go (y ∷ s) f = ground arith

  before_self : IsKeyOrder before → (a : A) → before a a ≡ false
  before_self o a = elim (Bool-cases (before a a)) [ inl e ↦ o.asymm a a e | inr e ↦ e ]

  not_before_each :
      (a w y : A) (xs : List A)
      → Memᴰ y (a ∷ xs)
      → before a w ≡ false
      → ((z : A) → Memᴰ z xs → before z w ≡ false)
      → before y w ≡ false
  not_before_each a w y xs (Memᴰ.head p) first rest = rw p first
  not_before_each a w y xs (Memᴰ.tail k) first rest = rest y k

  -- The first element of a sorted list has no element before it.
  pub sort_by-first :
      IsKeyOrder before
      → (h : A) (t xs : List A) → sort_by before xs ≡ h ∷ t
      → (y : A) → Memᴰ y xs
      → before y h ≡ false
  unfolding sort_by insert_by
  sort_by-first o h t [] e y m = elim m [ ]
  sort_by-first o h t (a ∷ xs) e y m =
      go (sort_by before xs) refl (λ h' t' f. sort_by-first o h' t' xs f) e m
    where
      go :
          (s : List A)
          → sort_by before xs ≡ s
          → ((h' : A) (t' : List A)
              → sort_by before xs ≡ h' ∷ t'
              → (z : A) → Memᴰ z xs
              → before z h' ≡ false)
          → insert_by before a s ≡ h ∷ t
          → Memᴰ y (a ∷ xs)
          → before y h ≡ false
      go [] f ih g (Memᴰ.head p) = rw (← g') (rw p (before_self o a))
        where
          g' : a ≡ h
          g' = ground arith
      go [] f ih g (Memᴰ.tail k) = absurd (sort_by_nil y xs f k)
      go (x ∷ s) f ih g n = elim (Bool-cases (before x a)) [
        | inl x_first ↦
            let same : x ≡ h = ground arith in
            rw (← same) (not_before_each a x y xs n (o.asymm x a x_first) (ih x s f))
        | inr a_first ↦
            let same : a ≡ h = ground arith in
            rw (← same) (
              not_before_each a a y xs n (before_self o a)
                (λ z k. o.neg_trans z x a (ih x s f z k) a_first))
      ]
