-- ===== src/Prelude/Members.antt =====
-- Members of a filtered table.
use mathlib.Core.Path.{◌≡◌, refl, sym, ◌∙◌, ap}
use mathlib.Core.Logic.{inl, inr}
use mathlib.Core.Bool.{Bool, true, false}
use mathlib.Core.List.{List, [], ◌∷◌, Memᴰ}
use lingxi_learn.Prelude.Tests.{if◌then◌else◌, Bool-cases}
use lingxi_learn.Prelude.Tables.{filter}

module _ {ℓ} {A : Type ℓ} (test : A → Bool) where
  pub filter-Memᴰ : (x : A) (xs : List A) → Memᴰ x (filter test xs) → Memᴰ x xs × (test x ≡ true)
  unfolding filter
  filter-Memᴰ x [] m = elim m [ ]
  filter-Memᴰ x (y ∷ ys) m = go (test y) refl (filter-Memᴰ x ys) m
    where
      go :
          (b : Bool)
          → test y ≡ b
          → (Memᴰ x (filter test ys) → Memᴰ x ys × (test x ≡ true))
          → Memᴰ x (if b then y ∷ filter test ys else filter test ys)
          → Memᴰ x (y ∷ ys) × (test x ≡ true)
      go true e ih (Memᴰ.head p) = (Memᴰ.head p, ap test p ∙ e)
      go true e ih (Memᴰ.tail n) = (Memᴰ.tail ((ih n).0), (ih n).1)
      go false e ih n = (Memᴰ.tail ((ih n).0), (ih n).1)

  pub Memᴰ-filter : (x : A) (xs : List A) → Memᴰ x xs → test x ≡ true → Memᴰ x (filter test xs)
  unfolding filter
  Memᴰ-filter x [] m h = elim m [ ]
  Memᴰ-filter x (y ∷ ys) (Memᴰ.head p) h = rw (ap test (sym p) ∙ h) (Memᴰ.head p)
  Memᴰ-filter x (y ∷ ys) (Memᴰ.tail n) h = elim (Bool-cases (test y)) [
    | inl e ↦ rw e (Memᴰ.tail (Memᴰ-filter x ys n h))
    | inr e ↦ rw e (Memᴰ-filter x ys n h)
  ]
