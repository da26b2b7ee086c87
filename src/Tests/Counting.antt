-- ===== src/Tests/Counting.antt =====
-- Counters that traffic resets.
use go_gost_x.Prelude.{◌+◌, ◌%◌, ◌^◌, ◌≡◌, refl, true, List, [], ◌∷◌, some, pos, negsuc}
use go_gost_x.Stats.{Kind, Call, new_stats, to_uint64, get, is_updated, run, add}
use go_gost_x.Stats.Refinement.{amount, sum, pending, touched, run-get}
use go_gost_x.Stats.Conservation.{returned, returned-get}

abbrev calls : List Call
calls =
    Call.adds Kind.input_bytes (pos 40)
    ∷ Call.adds Kind.current_conns (negsuc 0)
    ∷ Call.gets Kind.input_bytes
    ∷ Call.asks
    ∷ Call.adds Kind.input_bytes (pos 2)
    ∷ Call.adds Kind.current_conns (pos 3)
    ∷ []

first_read : (get (run (some (new_stats true)) calls) Kind.input_bytes).1 ≡ 40
unfolding get run add is_updated new_stats
first_read = refl

run-get_example :
    ((get (run (some (new_stats true)) calls) Kind.current_conns).1
      ≡ to_uint64 (pending true Kind.current_conns calls))
    × ((is_updated (run (some (new_stats true)) calls)).1 ≡ some (touched calls))
run-get_example = run-get true calls Kind.current_conns

returned-get_example :
    (returned (some (new_stats true)) Kind.input_bytes calls
        + (get (run (some (new_stats true)) calls) Kind.input_bytes).1)
      % 2 ^ 64
    ≡ to_uint64 (sum (amount Kind.input_bytes) calls)
returned-get_example = returned-get Kind.input_bytes calls refl refl
