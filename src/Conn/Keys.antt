-- ===== src/Conn/Keys.antt =====
-- limiter/conn/conn.go and generator.go: the limiters of a key. Parameters are net.ParseIP,
-- net.ParseCIDR, strings.TrimSpace and the ranger of yl2chen/cidranger.
pub mod Listed
pub mod Tally
pub mod Choice
pub mod Groups
pub mod Limits
pub mod Reload
pub mod Lines
use go_gost_x.Prelude.{
  map, ◌||◌, ℕ, suc, Bool, true, false, List, [], ◌∷◌, ◌++◌, Option, none, some, if◌then◌else◌, ℤ,
  pos, leb_ℤ, ltb_ℤ,
}
use go_gost_x.Text.{Text, bytes, lookup, insert, text_eq, is_empty}
use go_gost_x.Matcher.Cidr.{IpNet}
use go_gost_x.Conn.{Limiter, Heap, put, group_allow}

abbrev pub global_limit_key : Text
global_limit_key = bytes "$"

abbrev pub ip_limit_key : Text
ip_limit_key = bytes "$$"

-- connLimitGenerator and connLimitSingleGenerator; a limiter is a place of the heap.
pub data Generator : Type 0 where
  many : ℤ → Generator
  single : Option ℕ → Generator

-- The limiters that were made are those below `fresh`.
pub record Store : Type 0 where
  pub heap : Heap
  pub fresh : ℕ

-- NewLimiter
unfoldable pub new_limiter : ℤ → Store → Store × ℕ
new_limiter n s = (
  record { heap = put s.heap s.fresh (record { limit = n; current = pos 0 }); fresh = suc s.fresh },
  s.fresh,
)

-- NewConnLimitSingleGenerator
unfoldable pub new_single : ℤ → Store → Store × Generator
unfolding new_limiter
new_single n s =
    if ltb_ℤ (pos 0) n
    then (let (s', i) = new_limiter n s in (s', single (some i)))
    else (s, single none)

-- Limiter() of a generator, and the append of what is not nil.
unfoldable pub generate : Generator → Store → Store × List ℕ
unfolding new_limiter
generate (many n) s =
    if leb_ℤ n (pos 0) then (s, []) else (let (s', i) = new_limiter n s in (s', i ∷ []))
generate (single none) s = (s, [])
generate (single (some i)) s = (s, i ∷ [])

abbrev pub from_entry : Option Generator → Store → Store × List ℕ
from_entry none s = (s, [])
from_entry (some g) s = generate g s

pub record CidrLimitEntry : Type 0 where
  pub ip_net : IpNet
  pub limit : ℤ

-- A ranger: `insert`, and the entries of ContainingNetworks.
pub record Ranger : Type 1 where
  pub Nets : Type 0
  pub empty : Nets
  pub add : CidrLimitEntry → Nets → Nets
  pub containing : Nets → List ℕ → List CidrLimitEntry

abbrev pub from_nets : List CidrLimitEntry → Store → Store × List ℕ
from_nets [] s = (s, [])
from_nets (e ∷ es) s = generate (many e.limit) s

-- sort.Slice by the limits.
abbrev put_sorted : Heap → ℕ → List ℕ → List ℕ
put_sorted h x [] = x ∷ []
put_sorted h x (y ∷ ys) =
    let rest = put_sorted h x ys in if ltb_ℤ (h y).limit (h x).limit then y ∷ rest else x ∷ (y ∷ ys)

unfoldable pub new_limiter_group : Heap → List ℕ → List ℕ
new_limiter_group h [] = []
new_limiter_group h (x ∷ xs) = put_sorted h x (new_limiter_group h xs)

pub record ConnLimiter (r : Ranger) : Type 0 where
  pub ip_limits : List (Text × Generator)
  pub cidr_limits : r.Nets
  pub limits : List (Text × List ℕ)
  pub store : Store
  pub lines : List Text

-- What the loop of `reload` builds.
pub record Built (r : Ranger) : Type 0 where
  pub ip_limits : List (Text × Generator)
  pub cidr_limits : r.Nets
  pub store : Store

-- NewConnLimiter, before the reload that it starts; no limiter was made yet.
unfoldable pub new_conn_limiter : (r : Ranger) → List Text → ConnLimiter r
new_conn_limiter r lines = record {
  ip_limits = [];
  cidr_limits = r.empty;
  limits = [];
  store = record { heap = λ i. record { limit = pos 0; current = pos 0 }; fresh = 0 };
  lines = lines;
}

abbrev or_else : Store × List ℕ → (Store → Store × List ℕ) → Store × List ℕ
or_else (s, []) next = next s
or_else (s, x ∷ xs) next = (s, x ∷ xs)

module _ (r : Ranger) (parse_ip : Text → Option (List ℕ)) where
  abbrev for_ip : ConnLimiter r → Text → Option (List ℕ) → Store × List ℕ
  for_ip l key none = (l.store, [])
  for_ip l key (some ip) =
      or_else (from_entry (lookup key l.ip_limits) l.store)
        (from_nets (r.containing l.cidr_limits ip))

  -- The limiters of a key that has no group yet, before they are sorted.
  unfoldable pub choose : ConnLimiter r → Text → Store × List ℕ
  unfolding generate
  choose l key =
      let (s, own) =
        or_else (for_ip l key (parse_ip key)) (from_entry (lookup ip_limit_key l.ip_limits)) in
      let (s', global) = from_entry (lookup global_limit_key l.ip_limits) s in (s', own ++ global)

  abbrev keep_group : ConnLimiter r → Text → Store × List ℕ → ConnLimiter r × Option (List ℕ)
  keep_group l key (s, []) = (record l { store = s }, none)
  keep_group l key (s, x ∷ xs) =
      let g = new_limiter_group s.heap (x ∷ xs) in
      (record l { store = s; limits = insert key g l.limits }, some g)

  -- Limiter(key); none for nil.
  unfoldable pub limiter : ConnLimiter r → Text → ConnLimiter r × Option (List ℕ)
  unfolding choose new_limiter_group
  limiter l key = elim (lookup key l.limits) [
    | some g ↦ (l, some g)
    | none ↦ keep_group l key (choose l key)
  ]

  module _ (parse_cidr : Text → Option IpNet) where
    abbrev put_net : ℤ → Option IpNet → Built r → Built r
    put_net n none b = b
    put_net n (some net) b = record b {
      cidr_limits = r.add (record { ip_net = net; limit = n }) b.cidr_limits;
    }

    abbrev put_single : Text → ℤ → Built r → Built r
    put_single key n b =
        let (s, g) = new_single n b.store in
        record b { ip_limits = insert key g b.ip_limits; store = s }

    abbrev put_address : Text → ℤ → Option (List ℕ) → Built r → Built r
    put_address key n (some ip) b = put_single key n b
    put_address key n none b = put_net n (parse_cidr key) b

    -- One line of `reload`, parsed.
    unfoldable pub put_line : Text × ℤ → Built r → Built r
    unfolding new_single
    put_line (key, n) b =
        if is_empty key || leb_ℤ n (pos 0)
        then b
        else if text_eq key global_limit_key
        then put_single key n b
        else if text_eq key ip_limit_key
        then record b { ip_limits = insert key (many n) b.ip_limits }
        else put_address key n (parse_ip key) b

    unfoldable pub put_lines : List (Text × ℤ) → Built r → Built r
    unfolding put_line
    put_lines [] b = b
    put_lines (x ∷ xs) b = put_lines xs (put_line x b)

    module _ (parse_limit : Text → Text × ℤ) where
      -- reload, with the lines that `load` gives.
      unfoldable pub reload : ConnLimiter r → List Text → ConnLimiter r
      unfolding put_lines
      reload l loaded =
          let b =
            put_lines (map parse_limit (l.lines ++ loaded))
              (record { ip_limits = []; cidr_limits = r.empty; store = l.store }) in
          record l {
            ip_limits = b.ip_limits;
            cidr_limits = b.cidr_limits;
            limits = [];
            store = b.store;
          }
