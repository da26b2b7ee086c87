-- ===== src/Hop/Tier/Layers.antt =====
-- How the loop cuts sorted nodes into tiers.
use go_gost_x.Prelude.{
  ◌≡◌, refl, ap, subst, ◌∙◌, Bool, true, false, List, [], ◌∷◌, ◌++◌, if◌then◌else◌, ◌≤ℤ◌, eq_ℤ,
  Memᴰ, arith,
}
use go_gost_x.Hop.Node.{Node}
use go_gost_x.Hop.Tier.{Tier, join, tiers}

abbrev pub nodes_of : List Tier → List Node
nodes_of [] = []
nodes_of ((n, ns) ∷ ts) = n ∷ (ns ++ nodes_of ts)

pub tiers-nodes_of : (ns : List Node) → nodes_of (tiers ns) ≡ ns
unfolding tiers
tiers-nodes_of [] = refl
tiers-nodes_of (n ∷ ns) = join-nodes_of (tiers ns) ∙ ap (λ us. n ∷ us) (tiers-nodes_of ns)
  where
    joined :
        (b : Bool) (m : Node) (ms : List Node) (ts : List Tier)
        → nodes_of (if b then (n, m ∷ ms) ∷ ts else (n, []) ∷ (m, ms) ∷ ts)
          ≡ n ∷ m ∷ (ms ++ nodes_of ts)
    joined true m ms ts = refl
    joined false m ms ts = refl

    join-nodes_of : (ts : List Tier) → nodes_of (join n ts) ≡ n ∷ nodes_of ts
    join-nodes_of [] = refl
    join-nodes_of ((m, ms) ∷ ts) = joined _ m ms ts

-- The priorities do not rise.
abbrev pub Descending : List Node → Type 0
Descending [] = Unit
Descending (n ∷ ns) = ((w : Node) → Memᴰ w ns → w.priority ≤ℤ n.priority) × Descending ns

-- Each tier has one priority, and no later node a higher one.
abbrev pub Layered : List Tier → Type 0
Layered [] = Unit
Layered ((n, ns) ∷ ts) =
    ((w : Node) → Memᴰ w ns → n.priority ≤ℤ w.priority)
    × ((w : Node) → Memᴰ w (ns ++ nodes_of ts) → w.priority ≤ℤ n.priority)
    × Layered ts

pub tiers-Layered : (ns : List Node) → Descending ns → Layered (tiers ns)
unfolding tiers
tiers-Layered [] d = tt
tiers-Layered (n ∷ ns) (d, ds) =
    join-Layered (tiers ns) (λ w i. d w (subst (Memᴰ w) (tiers-nodes_of ns) i))
      (tiers-Layered ns ds)
  where
    joined :
        (b : Bool) (m : Node) (ms : List Node) (ts : List Tier)
        → eq_ℤ n.priority m.priority ≡ b
        → ((w : Node) → Memᴰ w (m ∷ (ms ++ nodes_of ts)) → w.priority ≤ℤ n.priority)
        → Layered ((m, ms) ∷ ts)
        → Layered (if b then (n, m ∷ ms) ∷ ts else (n, []) ∷ (m, ms) ∷ ts)
    joined true m ms ts e h (f, g, l) = (level, h, l)
      where
        level : (w : Node) → Memᴰ w (m ∷ ms) → n.priority ≤ℤ w.priority
        level w (Memᴰ.head q) = rw q (ground arith)
        level w (Memᴰ.tail i) = ground (arith, f w i)
    joined false m ms ts e h l = ((λ w i. elim i [ ]), h, l)

    join-Layered :
        (ts : List Tier)
        → ((w : Node) → Memᴰ w (nodes_of ts) → w.priority ≤ℤ n.priority)
        → Layered ts
        → Layered (join n ts)
    join-Layered [] h l = ((λ w i. elim i [ ]), h, l)
    join-Layered ((m, ms) ∷ ts) h l = joined _ m ms ts refl h l
