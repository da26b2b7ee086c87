-- ===== src/Tests/Bypassing.antt =====
-- A whitelist of one host and a group of two lists.
use go_gost_x.Prelude.{◌≡◌, refl, Bool, true, false, [], ◌∷◌, some}
use go_gost_x.Text.{Text, text_eq}
use go_gost_x.Bypass.{PatternSet, LocalBypass, is_bypass, evaluate}
use go_gost_x.Bypass.Decision.{evaluate-any}

abbrev one_host : PatternSet
one_host = record {
  cidr = λ s. false;
  addr = λ s. text_eq s (97 ∷ []);
  wildcard = λ s. false;
  ip_range = λ s. false;
}

abbrev white : LocalBypass
white = record {
  patterns = some one_host;
  options = record { whitelist = true; matchers = []; network = [] };
}

abbrev no_ip : Text → Bool
no_ip s = false

groups :
    is_bypass (
      evaluate (
        record { whitelist = true; contains = false }
        ∷ record { whitelist = false; contains = true }
        ∷ []))
    ≡ true
unfolding evaluate
groups = refl

evaluate-any_example :
    is_bypass (
      evaluate (
        record { whitelist = true; contains = false }
        ∷ record { whitelist = false; contains = true }
        ∷ []))
    ≡ true
evaluate-any_example = evaluate-any (
    record { whitelist = true; contains = false }
    ∷ record { whitelist = false; contains = true }
    ∷ [])
