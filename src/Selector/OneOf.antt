-- ===== src/Selector/OneOf.antt =====
-- A returned value is one of the candidates.
use go_gost_x.Prelude.{
  ℕ, suc, zero, ◌<◌, refl, List, [], ◌∷◌, Option, none, some, Memᴰ, get_elem?, length, arith,
}

module _ {T : Type 0} where
  abbrev pub OneOf : List T → Option T → Type 0
  OneOf vs none = ⊥
  OneOf vs (some v) = Memᴰ v vs

  OneOf-tail : (v : T) (vs : List T) (o : Option T) → OneOf vs o → OneOf (v ∷ vs) o
  OneOf-tail v vs none h = h
  OneOf-tail v vs (some u) h = Memᴰ.tail h

  pub get_elem?-OneOf : (vs : List T) (i : ℕ) → i < length vs → OneOf vs (get_elem? vs i)
  get_elem?-OneOf [] i h = elim h [ ]
  get_elem?-OneOf (v ∷ vs) zero h = Memᴰ.head refl
  get_elem?-OneOf (v ∷ vs) (suc i) h = OneOf-tail v vs _ (get_elem?-OneOf vs i (omega arith))
