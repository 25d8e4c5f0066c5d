-- ===== src/Reconciler/Finalizers/Sets.antt =====
-- The finalizers as a set, which forgets their order: what setting and clearing the reconciler's own
-- does to the set of the object that the API server stores.
use mathlib.Core.Quot
use mathlib.Core.Quot.{Quot, Quot-set}
use knative_serving_wasm.Prelude.{
  String, ◌==◌, eq_iff, ◌≡◌, ◌∙◌, ap, true, false, ◌||◌, List, [], ◌∷◌, ◌++◌, contains,
  contains-append, arith, if◌then◌else◌,
}
use knative_serving_wasm.Api.Types.{WasmModule}

-- Lists with the same members are the same set.
abbrev pub SameMembers : List String → List String → Type 0
SameMembers xs ys = (x : String) → contains xs x ≡ contains ys x

abbrev pub FinalizerSet : Type 0
FinalizerSet = Quot SameMembers

pub set_of : WasmModule → FinalizerSet
set_of m = Quot.mk m.finalizers

without : String → List String → List String
without y [] = []
without y (x ∷ xs) = if y == x then without y xs else x ∷ without y xs

contains-without :
    (y : String) (xs : List String) (x : String)
    → contains (without y xs) x ≡ (if y == x then false else contains xs x)
unfolding without
contains-without y [] x = ground arith
contains-without y (a ∷ xs) x =
    ground (arith, contains-without y xs x, eq_iff y a, eq_iff a x, eq_iff y x)

SameMembers-cons :
    (y : String) (xs ys : List String) → SameMembers xs ys → SameMembers (y ∷ xs) (y ∷ ys)
SameMembers-cons y xs ys h x = ap (λ b. y == x || b) (h x)

SameMembers-without :
    (y : String) (xs ys : List String)
    → SameMembers xs ys
    → SameMembers (without y xs) (without y ys)
SameMembers-without y xs ys h x =
    ground (arith, contains-without y xs x, contains-without y ys x, h x)

pub insert : String → FinalizerSet → FinalizerSet
insert y =
    Quot.lift Quot-set (λ xs. Quot.mk (y ∷ xs)) (λ xs ys h. Quot.sound (SameMembers-cons y xs ys h))

pub delete : String → FinalizerSet → FinalizerSet
delete y =
    Quot.lift Quot-set (λ xs. Quot.mk (without y xs))
      (λ xs ys h. Quot.sound (SameMembers-without y xs ys h))

pub insert-held :
    (own : String) (m : WasmModule)
    → contains m.finalizers own ≡ true
    → set_of m ≡ insert own (set_of m)
unfolding set_of insert
insert-held own m has =
    Quot.sound (λ x. ground (arith, has, eq_iff own x, ap (λ a. contains m.finalizers a)))

pub insert-append :
    (own : String) (m m' : WasmModule)
    → m'.finalizers ≡ m.finalizers ++ (own ∷ [])
    → set_of m' ≡ insert own (set_of m)
unfolding set_of insert
insert-append own m m' e =
    ap (λ l. Quot.mk l) e
    ∙ Quot.sound (λ x. ground (arith, contains-append m.finalizers (own ∷ []) x))

pub delete-kept :
    (own : String) (m m' : WasmModule) (kept : List String)
    → m'.finalizers ≡ kept
    → ((x : String) → contains kept x ≡ (if own == x then false else contains m.finalizers x))
    → set_of m' ≡ delete own (set_of m)
unfolding set_of delete
delete-kept own m m' kept e contains-kept =
    ap (λ l. Quot.mk l) e
    ∙ Quot.sound (λ x. ground (arith, contains-kept x, contains-without own m.finalizers x))

pub delete-lacks :
    (own : String) (m : WasmModule)
    → contains m.finalizers own ≡ false
    → set_of m ≡ delete own (set_of m)
unfolding set_of delete
delete-lacks own m lacks = Quot.sound (λ x. ground (
  arith,
  lacks,
  eq_iff own x,
  ap (λ a. contains m.finalizers a),
  contains-without own m.finalizers x,
))
