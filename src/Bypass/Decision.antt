-- ===== src/Bypass/Decision.antt =====
-- The decision of a list and of a group of lists.
use go_gost_x.Prelude.{
  ◌≡◌, refl, Bool, true, false, not, ◌&&◌, ◌||◌, List, [], ◌∷◌, some, if◌then◌else◌, any, all,
  arith,
}
use go_gost_x.Text.{Text, text_eq, is_empty}
use go_gost_x.Bypass.{
  PatternSet, LocalBypass, is_bypass, match_any, match_host, decide, contains, Rule, white_loop,
  black_loop, evaluate,
}

black_loop-any :
    (rs : List Rule) → is_bypass (black_loop rs) ≡ any (λ r. not r.whitelist && r.contains) rs
black_loop-any [] = refl
black_loop-any (r ∷ rs) = ground (arith, black_loop-any rs)

white_loop-all :
    (rs : List Rule) (has : Bool)
    → ((white_loop rs has).0 && (white_loop rs has).1)
      ≡ ((has || any (λ r. r.whitelist) rs) && all (λ r. not r.whitelist || r.contains) rs)
white_loop-all [] has = ground arith
white_loop-all (r ∷ rs) has = ground (arith, white_loop-all rs has, white_loop-all rs true)

-- A group lets an address bypass exactly when it has a whitelist and all of its whitelists let it,
-- or some blacklist does.
pub evaluate-any :
    (rs : List Rule)
    → is_bypass (evaluate rs) ≡ (
        any (λ r. r.whitelist) rs && all (λ r. not r.whitelist || r.contains) rs
        || any (λ r. not r.whitelist && r.contains) rs)
unfolding evaluate
evaluate-any rs = ground (arith, white_loop-all rs false, black_loop-any rs)

-- With patterns, and on a network that the list is for, a non-empty address bypasses a blacklist
-- exactly when it or the given host matches, and a whitelist exactly when neither does.
pub contains-matched :
    (is_ip : Text → Bool) (p : LocalBypass) (ps : PatternSet) (network addr host : Text)
    → p.patterns ≡ some ps
    → is_empty addr ≡ false
    → (is_empty p.options.network || text_eq p.options.network network) ≡ true
    → contains is_ip p network addr host ≡ (
        if p.options.whitelist
        then not (match_any is_ip (some ps) addr || match_host is_ip (some ps) host)
        else match_any is_ip (some ps) addr || match_host is_ip (some ps) host)
unfolding contains decide
contains-matched is_ip p ps network addr host a e n = rw a (ground (arith, e, n))
