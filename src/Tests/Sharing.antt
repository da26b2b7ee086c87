-- ===== src/Tests/Sharing.antt =====
-- A limit of one connection for an address and of two in all, and no ranges.
use go_gost_x.Prelude.{
  arith, ℕ, ◌≡◌, ◌⊎◌, inl, max_int, ◌≤ℤ◌, refl, List, [], ◌∷◌, Option, none, some, if◌then◌else◌,
  pos,
}
use go_gost_x.Text.{Text, bytes, lookup, contains_byte, split_host_port}
use go_gost_x.Matcher.Cidr.{IpNet}
use go_gost_x.Conn.Keys.{
  Ranger, ConnLimiter, CidrLimitEntry, global_limit_key, ip_limit_key, reload, limiter,
  new_conn_limiter,
}
use go_gost_x.Loader.{Loaders}
use go_gost_x.Conn.Keys.Lines.{load, parse_limit}
use go_gost_x.Conn.Slots.{
  Listener, Event, accepts, closes, reloads, new_listener, run, slots, close, accept,
}
use go_gost_x.Conn.Keys.Choice.{IsSound}
use go_gost_x.Conn.Keys.Reload.{reload-IsSound}
use go_gost_x.Conn.Keys.Listed.{answer_limits, both, first_of, entry_limit}
use go_gost_x.Conn.Keys.Limits.{address_limit, limiter-both}
use go_gost_x.Conn.Slots.Sharing.{run-slots}

abbrev ranges : Ranger
ranges = record {
  Nets = List CidrLimitEntry;
  empty = [];
  add = λ e es. e ∷ es;
  containing = λ es ip. es;
}

-- A text with a dot.
abbrev parse_ip : Text → Option (List ℕ)
parse_ip s = if contains_byte b'.' s then some (192 ∷ 0 ∷ 2 ∷ 1 ∷ []) else none

abbrev parse_cidr : Text → Option IpNet
parse_cidr s = none

abbrev trim_space : Text → Text
trim_space s = s

abbrev no_loaders : Loaders
no_loaders = record { file_loader = none; redis_loader = none; http_loader = none }

abbrev lines : List Text
lines = bytes "$ 2" ∷ bytes "192.0.2.1 1" ∷ []

abbrev life : List Event
life =
    reloads no_loaders
    ∷ accepts (bytes "192.0.2.1:80")
    ∷ accepts (bytes "192.0.2.1:81")
    ∷ accepts (bytes "198.51.100.7:80")
    ∷ closes 0
    ∷ closes 0
    ∷ []

abbrev after : Listener ranges
after = run ranges parse_ip parse_cidr trim_space (new_listener ranges lines) life

run-slots_example :
    ((after.conns.store.heap 0).current ≡ pos (slots after.wrapped 0))
    × ((pos (slots after.wrapped 0) ≤ℤ (after.conns.store.heap 0).limit)
        ⊎ (pos max_int ≤ℤ (after.conns.store.heap 0).limit))
run-slots_example = run-slots ranges parse_ip parse_cidr trim_space lines life 0 refl

-- The second connection of the address is refused, and of the two others one is closed, once.
one_left : slots after.wrapped 0 ≡ 1
unfolding run slots new_listener close accept reload split_host_port load parse_limit
one_left = refl

abbrev fresh : ConnLimiter ranges
fresh = new_conn_limiter ranges (bytes "$$ 3" ∷ lines)

fresh-IsSound : IsSound (λ x. 0) fresh
unfolding new_conn_limiter
fresh-IsSound = record {
  tallied = record { exact = λ j. refl; unused = λ j le. refl; within = λ j. inl (omega arith) };
  singles = record { below = λ k x e. cc; apart = λ j k x e d. cc };
  groups = λ k g e. cc;
}

abbrev loaded : ConnLimiter ranges
loaded = reload ranges parse_ip parse_cidr (parse_limit trim_space) fresh []

loaded-IsSound : IsSound (λ x. 0) loaded
loaded-IsSound =
    (reload-IsSound ranges parse_ip parse_cidr (λ x. 0) (parse_limit trim_space) fresh []
      fresh-IsSound).0

known :
    answer_limits (limiter ranges parse_ip loaded (bytes "192.0.2.1")) ≡ some (pos 1 ∷ pos 2 ∷ [])
unfolding limiter reload new_conn_limiter parse_limit
known = refl

limiter-both_example :
    answer_limits (limiter ranges parse_ip loaded (bytes "198.51.100.7"))
    ≡ both
        (first_of
          (address_limit ranges parse_ip loaded
            (bytes "198.51.100.7")
            (parse_ip (bytes "198.51.100.7")))
          (entry_limit loaded.store.heap (lookup ip_limit_key loaded.ip_limits)))
        (entry_limit loaded.store.heap (lookup global_limit_key loaded.ip_limits))
unfolding reload
limiter-both_example =
    limiter-both ranges parse_ip loaded (bytes "198.51.100.7") loaded-IsSound.singles refl
