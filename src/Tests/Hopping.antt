-- ===== src/Tests/Hopping.antt =====
-- A hop with a primary, a backup of a higher priority and a node that its filter shuts out.
use go_gost_x.Prelude.{
  ◌≡◌, refl, ◌-◌, ◌⊎◌, ◌↔◌, inr, Bool, true, false, List, [], ◌∷◌, ◌++◌, Option, none, some,
  if◌then◌else◌, Memᴰ, ℤ, pos, arith,
}
use go_gost_x.Text.{bare, Text, bytes, dot, split_host_port}
use go_gost_x.Selector.View.{View}
use go_gost_x.Selector.Filter.{default_max_fails}
use go_gost_x.Selector.Filter.Healthy.{healthy}
use go_gost_x.Selector.Select.{Env}
use go_gost_x.Hop.Node.{Node, NodeFilter, SelectOptions, bypassed_by}
use go_gost_x.Hop.Gate.{gate, admitted, check_host, check_protocol, check_path, is_eligible}
use go_gost_x.Hop.Gate.Hosts.{check_host-dotted}
use go_gost_x.Hop.Tier.{before, tiers, try_tiers}
use go_gost_x.Hop.Tier.Best.{contends, Best}
use go_gost_x.Hop.Scan.Ranking.{candidates}
use go_gost_x.Hop.Select.{ChainHop, choose, select}
use go_gost_x.Hop.Scan.{rank, visit, scan}
use go_gost_x.Hop.Select.Laws.{Sorts, Sorted, mixed}
use go_gost_x.Hop.Select.Best.{select-Best}
use go_gost_x.Hop.Default.{
  Calls, Reading, default_strategy, default_filters, default_hop, pick_by, pick_by-Within,
  pick_by-Answers, select_default-Best,
}

-- Insertion as a sort.
abbrev place : (Node → Node → Bool) → Node → List Node → List Node
place less n [] = n ∷ []
place less n (m ∷ ms) = if less m n then m ∷ place less n ms else n ∷ m ∷ ms

abbrev pub insertion : (Node → Node → Bool) → List Node → List Node
insertion less [] = []
insertion less (n ∷ ns) = place less n (insertion less ns)

abbrev node_of : ℤ → Bool → Option NodeFilter → Node
node_of priority backup filter = record {
  name = [];
  priority = priority;
  backup = backup;
  bypass = none;
  matcher = none;
  filter = filter;
}

abbrev plain : Node
plain = node_of (pos 1) false none

abbrev slow : Node
slow = node_of (pos 0) false none

abbrev spare : Node
spare = node_of (pos 7) true none

abbrev filtered : Node
filtered =
    node_of (pos 9) false (some (record { host = dot ∷ bytes "lan.org"; protocol = []; path = [] }))

abbrev pub nodes : List (Option Node)
nodes = some slow ∷ none ∷ some spare ∷ some filtered ∷ some plain ∷ []

abbrev options_for : Text → SelectOptions
options_for host = record {
  network = bytes "tcp";
  addr = host;
  client_ip = none;
  host = host;
  protocol = [];
  method = [];
  path = [];
  query = none;
  header = none;
  body = [];
}

abbrev pub view : View Node
view = record {
  max_fails = λ v. none;
  fail_timeout = λ v. none;
  marker = λ v. none;
  backup = λ v. v.backup;
  weight = λ v. pos 1;
  probe = λ v. none;
}

abbrev reading : Reading
reading = record {
  env = record { now = pos 5; intn = λ n. n - 1; crc32 = λ s. 0; client = []; source = none };
  draws = λ n h. omega arith;
}

unfoldable pub calls : Calls
calls = (0, λ k. reading)

place-Memᴰ : (n w : Node) (ms : List Node) → Memᴰ w (place before n ms) → Memᴰ w (n ∷ ms)
place-Memᴰ n w [] i = i
place-Memᴰ n w (m ∷ ms) i = by_case (before m n) i (place-Memᴰ n w ms)
  where
    by_case :
        (b : Bool)
        → Memᴰ w (if b then m ∷ place before n ms else n ∷ m ∷ ms)
        → (Memᴰ w (place before n ms) → Memᴰ w (n ∷ ms))
        → Memᴰ w (n ∷ m ∷ ms)
    by_case true (Memᴰ.head e) ih = Memᴰ.tail (Memᴰ.head e)
    by_case true (Memᴰ.tail j) ih = deeper (ih j)
      where
        deeper : Memᴰ w (n ∷ ms) → Memᴰ w (n ∷ m ∷ ms)
        deeper (Memᴰ.head e) = Memᴰ.head e
        deeper (Memᴰ.tail k) = Memᴰ.tail (Memᴰ.tail k)
    by_case false i ih = i

Memᴰ-place : (n w : Node) (ms : List Node) → Memᴰ w (n ∷ ms) → Memᴰ w (place before n ms)
Memᴰ-place n w [] i = i
Memᴰ-place n w (m ∷ ms) i = by_case (before m n) i (Memᴰ-place n w ms)
  where
    by_case :
        (b : Bool)
        → Memᴰ w (n ∷ m ∷ ms)
        → (Memᴰ w (n ∷ ms) → Memᴰ w (place before n ms))
        → Memᴰ w (if b then m ∷ place before n ms else n ∷ m ∷ ms)
    by_case true (Memᴰ.head e) ih = Memᴰ.tail (ih (Memᴰ.head e))
    by_case true (Memᴰ.tail (Memᴰ.head e)) ih = Memᴰ.head e
    by_case true (Memᴰ.tail (Memᴰ.tail k)) ih = Memᴰ.tail (ih (Memᴰ.tail k))
    by_case false i ih = i

place-Sorted : (n : Node) (ms : List Node) → Sorted before ms → Sorted before (place before n ms)
place-Sorted n [] s = ((λ w i. elim i [ ]), tt)
place-Sorted n (m ∷ ms) (h, s) = by_case (before m n) refl (place-Sorted n ms s)
  where
    above : before m n ≡ false → (w : Node) → Memᴰ w (m ∷ ms) → before w n ≡ false
    above e w (Memᴰ.head q) = rw q e
    above e w (Memᴰ.tail i) = ground (arith, e, h w i)

    below : before m n ≡ true → (w : Node) → Memᴰ w (n ∷ ms) → before w m ≡ false
    below e w (Memᴰ.head q) = rw q (ground (arith, e))
    below e w (Memᴰ.tail i) = h w i

    by_case :
        (b : Bool)
        → before m n ≡ b
        → Sorted before (place before n ms)
        → Sorted before (if b then m ∷ place before n ms else n ∷ m ∷ ms)
    by_case true e ih = ((λ w i. below e w (place-Memᴰ n w ms i)), ih)
    by_case false e ih = (above e, (h, s))

insertion-Sorted : (ns : List Node) → Sorted before (insertion before ns)
insertion-Sorted [] = tt
insertion-Sorted (n ∷ ns) = place-Sorted n _ (insertion-Sorted ns)

Memᴰ-insertion : (ns : List Node) (w : Node) → Memᴰ w ns → Memᴰ w (insertion before ns)
Memᴰ-insertion [] w i = i
Memᴰ-insertion (n ∷ ns) w (Memᴰ.head e) = Memᴰ-place n w _ (Memᴰ.head e)
Memᴰ-insertion (n ∷ ns) w (Memᴰ.tail i) = Memᴰ-place n w _ (Memᴰ.tail (Memᴰ-insertion ns w i))

insertion-Memᴰ : (ns : List Node) (w : Node) → Memᴰ w (insertion before ns) → Memᴰ w ns
insertion-Memᴰ [] w i = i
insertion-Memᴰ (n ∷ ns) w i = later (place-Memᴰ n w _ i) (insertion-Memᴰ ns w)
  where
    later :
        Memᴰ w (n ∷ insertion before ns)
        → (Memᴰ w (insertion before ns) → Memᴰ w ns)
        → Memᴰ w (n ∷ ns)
    later (Memᴰ.head e) ih = Memᴰ.head e
    later (Memᴰ.tail j) ih = Memᴰ.tail (ih j)

pub sorts : Sorts insertion
sorts = record { sorted = insertion-Sorted; kept = Memᴰ-insertion; same = insertion-Memᴰ }

abbrev options : SelectOptions
options = options_for (bytes "www.example.com")

abbrev default : ChainHop Calls
unfolding default_hop
default = default_hop view nodes none

-- The top of all priorities is shut out by its filter, the next is a backup.
selected : (select insertion default options calls).0 ≡ some plain
unfolding select choose scan visit rank admitted gate is_eligible check_host check_protocol
    check_path tiers try_tiers default default_hop pick_by default_filters default_strategy calls
    split_host_port go_gost_x.Selector.Select.select
selected = refl

select-Best_example :
    (bypassed_by none options ≡ false)
    × Memᴰ (some plain) nodes
    × (admitted options plain ≡ true)
    × Best
        (healthy view default_max_fails)
        (mixed (candidates options nodes))
        (candidates options nodes)
        plain
unfolding default default_hop
select-Best_example =
    select-Best insertion (healthy view default_max_fails) default options calls plain sorts
      (pick_by-Within view default_filters) (pick_by-Answers view) selected

plain_contends : contends (mixed (candidates options nodes)) plain ≡ true
unfolding admitted
plain_contends = refl

select_default-Best_example :
    (v : Node) × ((select insertion (default_hop view nodes none) options calls).0 ≡ some v)
    × Best
        (healthy view default_max_fails)
        (mixed (candidates options nodes))
        (candidates options nodes)
        v
unfolding admitted
select_default-Best_example =
    select_default-Best view insertion nodes none options calls plain sorts refl
      (Memᴰ.tail (Memᴰ.tail (Memᴰ.tail (Memᴰ.tail (Memᴰ.head refl))))) refl plain_contends refl

check_host-dotted_example : (check_host (bytes "mylan.org:80") filtered ≡ true) ↔ (
    (bare (bytes "mylan.org:80") ≡ dot ∷ bytes "lan.org")
    ⊎ ((p : Text) × (bare (bytes "mylan.org:80") ≡ p ++ bytes "lan.org")))
check_host-dotted_example =
    check_host-dotted (bytes "mylan.org:80") (bytes "lan.org") filtered refl refl

-- The domain need not start at a label of the host.
mylan_accepted : check_host (bytes "mylan.org:80") filtered ≡ true
unfolding split_host_port
mylan_accepted = check_host-dotted_example.1 (inr (bytes "my", refl))
