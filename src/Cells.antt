-- ===== src/Cells.antt =====
-- A memory of cells, addressed by position; nothing is freed.
use knative_serving_wasm.Prelude.{
  ℕ, zero, suc, ◌+◌, ◌<◌, ◌≡◌, ◌⊎◌, inl, inr, refl, ap, Option, none, some, List, [], ◌∷◌, ◌++◌,
  length, arith,
}

abbrev pub Memory : Type 0 → Type 0
Memory A = List A

unfoldable pub load : {A : Type 0} → Memory A → ℕ → Option A
load [] p = none
load (a ∷ m) zero = some a
load (a ∷ m) (suc p) = load m p

unfoldable pub write : {A : Type 0} → Memory A → ℕ → A → Memory A
write [] p v = []
write (a ∷ m) zero v = v ∷ m
write (a ∷ m) (suc p) v = a ∷ write m p v

-- Go's `new` or `&T{…}` with the value: the new cell's address.
abbrev pub alloc : {A : Type 0} → A → Memory A → ℕ × Memory A
alloc a m = (length m, m ++ (a ∷ []))

pub load-alloc : {A : Type 0} (m : Memory A) (a : A) → load (alloc a m).1 (length m) ≡ some a
unfolding load
load-alloc [] a = refl
load-alloc (b ∷ m) a = load-alloc m a

pub load-alloc_old :
    {A : Type 0} (m : Memory A) (a : A) (p : ℕ) → p < length m → load (alloc a m).1 p ≡ load m p
unfolding load
load-alloc_old [] a p h = absurd (omega arith)
load-alloc_old (b ∷ m) a zero h = refl
load-alloc_old (b ∷ m) a (suc p) h = load-alloc_old m a p (omega arith)

pub length-alloc : {A : Type 0} (m : Memory A) (a : A) → length (alloc a m).1 ≡ length m + 1
length-alloc [] a = refl
length-alloc (b ∷ m) a = omega (arith, length-alloc m a)

pub load-write_other :
    {A : Type 0} (m : Memory A) (p q : ℕ) (v : A) → p < q → load (write m q v) p ≡ load m p
unfolding load write
load-write_other [] p q v h = refl
load-write_other (b ∷ m) zero zero v h = absurd (omega arith)
load-write_other (b ∷ m) (suc p) zero v h = absurd (omega arith)
load-write_other (b ∷ m) zero (suc q) v h = refl
load-write_other (b ∷ m) (suc p) (suc q) v h = load-write_other m p q v (omega arith)

pub load-write :
    {A : Type 0} (m : Memory A) (p : ℕ) {a : A} (v : A)
    → load m p ≡ some a
    → load (write m p v) p ≡ some v
unfolding load write
load-write [] p v h = cc
load-write (b ∷ m) zero v h = refl
load-write (b ∷ m) (suc p) v h = load-write m p v h

pub write-write :
    {A : Type 0} (m : Memory A) (p : ℕ) (u v : A) → write (write m p u) p v ≡ write m p v
unfolding write
write-write [] p u v = refl
write-write (b ∷ m) zero u v = refl
write-write (b ∷ m) (suc p) u v = ap (λ l. b ∷ l) (write-write m p u v)

pub write-load : {A : Type 0} (m : Memory A) (p : ℕ) {a : A} → load m p ≡ some a → write m p a ≡ m
unfolding load write
write-load [] p h = refl
write-load (b ∷ m) zero h = ground arith
write-load (b ∷ m) (suc p) h = ap (λ l. b ∷ l) (write-load m p h)

pub load-alloc-some :
    {A : Type 0} (m : Memory A) (p : ℕ) {a : A} (b : A)
    → load m p ≡ some a
    → load (alloc b m).1 p ≡ some a
unfolding load
load-alloc-some [] p b h = cc
load-alloc-some (c ∷ m) zero b h = h
load-alloc-some (c ∷ m) (suc p) b h = load-alloc-some m p b h

-- A cell after a write: either it is another cell, or the written one.
pub load-write_any :
    {A : Type 0} (m : Memory A) (p q : ℕ) {a b : A} (v : A)
    → load m p ≡ some a
    → load m q ≡ some b
    → (load (write m p v) q ≡ some b) ⊎ ((load (write m p v) q ≡ some v) × (a ≡ b))
unfolding load write
load-write_any [] p q v h k = cc
load-write_any (c ∷ m) zero zero v h k = inr (refl, ground (arith, h, k))
load-write_any (c ∷ m) zero (suc q) v h k = inl k
load-write_any (c ∷ m) (suc p) zero v h k = inl k
load-write_any (c ∷ m) (suc p) (suc q) v h k = load-write_any m p q v h k
