-- ===== src/Conn/Slots/Sharing.antt =====
-- Over a listener's life each limiter counts the open connections that share it.
use go_gost_x.Prelude.{
  ℕ, ◌≡◌, refl, subst, Bool, true, false, List, [], ◌∷◌, Option, none, some, if◌then◌else◌, ℤ, pos,
  negsuc, ◌≤ℤ◌, ◌⊎◌, inl, max_int, arith, All, get_elem?,
}
use go_gost_x.Text.{Text, split_host_port}
use go_gost_x.Matcher.Cidr.{IpNet}
use go_gost_x.Conn.{group_allow}
use go_gost_x.Conn.Keys.{Ranger, ConnLimiter, new_conn_limiter, limiter, global_limit_key}
use go_gost_x.Conn.Keys.Groups.{limiter-IsSound}
use go_gost_x.Conn.Keys.Choice.{IsSound, IsGroup}
use go_gost_x.Conn.Keys.Lines.{load, parse_limit}
use go_gost_x.Conn.Keys.Reload.{reload-IsSound}
use go_gost_x.Conn.Slots.{
  new_listener, ServerConn, Listener, set_heap, admit, take_slot, accept, close_at, release, close,
  slots, Event, accepts, closes, reloads, step, run, host_of,
}
use go_gost_x.Conn.Slots.Fair.{
  slots-append, slots-close_at, IsFair, groups_grow, groups-append, groups-close_at, IsGroup-at,
  taken, refused, returned,
}

module _ (r : Ranger) (parse_ip : Text → Option (List ℕ))
    (not_ip : parse_ip global_limit_key ≡ none) where
  accept-IsFair : (s : Listener r) (addr : Text) → IsFair s → IsFair (accept r parse_ip s addr).0
  unfolding accept
  accept-IsFair s addr f =
      let host = host_of (split_host_port addr) in
      let (v, group, le) =
        limiter-IsSound r parse_ip not_ip (slots s.wrapped) s.conns host f.sound in
      admitted (limiter r parse_ip s.conns host) v group (groups_grow _ _ s.wrapped le f.groups)
    where
      admitted :
          (a : ConnLimiter r × Option (List ℕ))
          → IsSound (slots s.wrapped) a.0
          → ((g : List ℕ) → a.1 ≡ some g → IsGroup a.0.store.fresh g)
          → All (λ c. IsGroup a.0.store.fresh c.limiter) s.wrapped
          → IsFair (admit r parse_ip s a).0
      admitted (l, none) v group gs = record { sound = v; groups = gs }
      admitted (l, some g) v group gs = slot_taken (group_allow l.store.heap g (pos 1)).1 refl
        where
          slot_taken :
              (b : Bool)
              → (group_allow l.store.heap g (pos 1)).1 ≡ b
              → IsFair
                  (take_slot r parse_ip
                    (record s { conns = l })
                    g
                    ((group_allow l.store.heap g (pos 1)).0, b)).0
          slot_taken true e = record {
            sound = taken l g (slots s.wrapped) _ v (group g refl) e (slots-append s.wrapped g);
            groups =
                groups-append l.store.fresh s.wrapped (record { limiter = g; closed = false }) gs
                  (group g refl);
          }
          slot_taken false e = record {
            sound = refused l g (slots s.wrapped) (slots s.wrapped) v (group g refl) e (λ j. refl);
            groups = gs;
          }

close-IsFair : {r : Ranger} (s : Listener r) (i : ℕ) → IsFair s → IsFair (close s i)
unfolding close
close-IsFair {r} s i f = released (get_elem? s.wrapped i) refl
  where
    released : (o : Option ServerConn) → get_elem? s.wrapped i ≡ o → IsFair (release s i o)
    released none e = f
    released (some c) e = once c.closed refl
      where
        once :
            (b : Bool)
            → c.closed ≡ b
            → IsFair (
                if b then s else record {
                  conns = set_heap s.conns (group_allow s.conns.store.heap c.limiter (negsuc 0)).0;
                  wrapped = close_at s.wrapped i;
                })
        once true o = f
        once false o = record {
          sound =
              returned s.conns c.limiter (slots s.wrapped) (slots (close_at s.wrapped i)) f.sound
                (IsGroup-at s.conns.store.fresh s.wrapped i c e f.groups)
                (λ j. slots-close_at s.wrapped i c j e o);
          groups = groups-close_at s.conns.store.fresh s.wrapped i f.groups;
        }

module _ (r : Ranger) (parse_ip : Text → Option (List ℕ)) (parse_cidr : Text → Option IpNet)
    (trim_space : Text → Text) (not_ip : parse_ip global_limit_key ≡ none) where
  step-IsFair :
      (s : Listener r) (e : Event) → IsFair s → IsFair (step r parse_ip parse_cidr trim_space s e)
  step-IsFair s (accepts addr) f = accept-IsFair r parse_ip not_ip s addr f
  step-IsFair s (closes i) f = close-IsFair s i f
  step-IsFair s (reloads loaders) f =
      let (v, le) =
        reload-IsSound r parse_ip parse_cidr (slots s.wrapped) (parse_limit trim_space) s.conns
          (load trim_space loaders) f.sound in
      record { sound = v; groups = groups_grow _ _ s.wrapped le f.groups }

  run-IsFair :
      (s : Listener r) (es : List Event)
      → IsFair s
      → IsFair (run r parse_ip parse_cidr trim_space s es)
  unfolding run
  run-IsFair s [] f = f
  run-IsFair s (e ∷ es) f =
      run-IsFair (step r parse_ip parse_cidr trim_space s e) es (step-IsFair s e f)

new_listener-IsFair : (r : Ranger) (lines : List Text) → IsFair (new_listener r lines)
unfolding new_listener new_conn_limiter slots
new_listener-IsFair r lines = record {
  sound = record {
    tallied = record { exact = λ j. refl; unused = λ j le. refl; within = λ j. inl (omega arith) };
    singles = record { below = λ k x e. cc; apart = λ j k x e d. cc };
    groups = λ k g e. cc;
  };
  groups = tt;
}

at_most :
    (c l : ℤ) {k : ℕ}
    → c ≡ pos k
    → (c ≤ℤ l) ⊎ (pos max_int ≤ℤ l)
    → (pos k ≤ℤ l) ⊎ (pos max_int ≤ℤ l)
at_most c l e k = subst (λ a. (a ≤ℤ l) ⊎ (pos max_int ≤ℤ l)) e k

-- Whatever the ranger and the lines are, and where "$" is no IP address: after any accepts, closes,
-- repeated ones too, and reloads, each limiter counts just the open connections of the listener
-- that share it, and those are no more than its limit, if that is not the largest int.
pub run-slots :
    (r : Ranger) (parse_ip : Text → Option (List ℕ)) (parse_cidr : Text → Option IpNet)
    (trim_space : Text → Text) (lines : List Text) (es : List Event) (x : ℕ)
    → parse_ip global_limit_key ≡ none
    → let s = run r parse_ip parse_cidr trim_space (new_listener r lines) es in
      ((s.conns.store.heap x).current ≡ pos (slots s.wrapped x))
      × ((pos (slots s.wrapped x) ≤ℤ (s.conns.store.heap x).limit)
          ⊎ (pos max_int ≤ℤ (s.conns.store.heap x).limit))
run-slots r parse_ip parse_cidr trim_space lines es x not_ip =
    let f =
      run-IsFair r parse_ip parse_cidr trim_space not_ip (new_listener r lines) es
        (new_listener-IsFair r lines) in
    let t = f.sound.tallied in (t.exact x, at_most _ _ (t.exact x) (t.within x))
