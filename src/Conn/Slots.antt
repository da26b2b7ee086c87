-- ===== src/Conn/Slots.antt =====
-- limiter/conn/wrapper: a listener whose connections take a slot of the limiters of their host.
pub mod Fair
pub mod Release
pub mod Sharing
use go_gost_x.Prelude.{
  ℕ, zero, suc, ◌+◌, Bool, true, false, ◌&&◌, not, List, [], ◌∷◌, Option, none, some, if◌then◌else◌,
  ℤ, pos, negsuc, get_elem?,
}
use go_gost_x.Text.{Text, split_host_port}
use go_gost_x.Matcher.Cidr.{IpNet}
use go_gost_x.Conn.{Heap, group_allow}
use go_gost_x.Conn.Group.{member}
use go_gost_x.Loader.{Loaders}
use go_gost_x.Conn.Keys.Lines.{load, parse_limit}
use go_gost_x.Conn.Keys.{new_conn_limiter, Ranger, ConnLimiter, limiter, reload}

-- serverConn
pub record ServerConn : Type 0 where
  pub limiter : List ℕ
  pub closed : Bool

-- The limiter, and the connections that were wrapped, the first accepted first.
pub record Listener (r : Ranger) : Type 0 where
  pub conns : ConnLimiter r
  pub wrapped : List ServerConn

-- A listener with a limiter of its own, and no connection.
unfoldable pub new_listener : (r : Ranger) → List Text → Listener r
unfolding new_conn_limiter
new_listener r lines = record { conns = new_conn_limiter r lines; wrapped = [] }

-- A connection with no limiter, one that is wrapped, or the error of one that is closed again.
pub data Accepted : Type 0 where
  plain wrapped limit_exceeded : Accepted

-- The host of net.SplitHostPort, empty where there is an error.
abbrev pub host_of : Option (Text × Text) → Text
host_of none = []
host_of (some (host, port)) = host

abbrev set_heap : {r : Ranger} → ConnLimiter r → Heap → ConnLimiter r
set_heap l h = record l { store = record (l.store) { heap = h } }

abbrev append : List ServerConn → ServerConn → List ServerConn
append [] c = c ∷ []
append (d ∷ ds) c = d ∷ append ds c

module _ (r : Ranger) (parse_ip : Text → Option (List ℕ)) where
  abbrev take_slot : Listener r → List ℕ → Heap × Bool → Listener r × Accepted
  take_slot s g (h, true) = (
    record {
      conns = set_heap s.conns h;
      wrapped = append s.wrapped (record { limiter = g; closed = false });
    },
    Accepted.wrapped,
  )
  take_slot s g (h, false) = (record s { conns = set_heap s.conns h }, Accepted.limit_exceeded)

  abbrev admit : Listener r → ConnLimiter r × Option (List ℕ) → Listener r × Accepted
  admit s (l, none) = (record s { conns = l }, Accepted.plain)
  admit s (l, some g) = take_slot (record s { conns = l }) g (group_allow l.store.heap g (pos 1))

  -- Accept, for a connection from an address.
  unfoldable pub accept : Listener r → Text → Listener r × Accepted
  unfolding limiter group_allow
  accept s addr = admit s (limiter r parse_ip s.conns (host_of (split_host_port addr)))

abbrev close_at : List ServerConn → ℕ → List ServerConn
close_at [] i = []
close_at (c ∷ cs) zero = record c { closed = true } ∷ cs
close_at (c ∷ cs) (suc i) = c ∷ close_at cs i

abbrev release : {r : Ranger} → Listener r → ℕ → Option ServerConn → Listener r
release s i none = s
release s i (some c) = if c.closed then s else record {
  conns = set_heap s.conns (group_allow s.conns.store.heap c.limiter (negsuc 0)).0;
  wrapped = close_at s.wrapped i;
}

-- Close of the i-th wrapped connection; there may be several calls.
unfoldable pub close : {r : Ranger} → Listener r → ℕ → Listener r
unfolding group_allow
close s i = release s i (get_elem? s.wrapped i)

-- The open connections that take a slot of a limiter.
unfoldable pub slots : List ServerConn → ℕ → ℕ
slots [] x = 0
slots (c ∷ cs) x = slots cs x + (if not c.closed && member x c.limiter then 1 else 0)

pub data Event : Type 0 where
  accepts : Text → Event
  closes : ℕ → Event
  reloads : Loaders → Event

module _ (r : Ranger) (parse_ip : Text → Option (List ℕ)) (parse_cidr : Text → Option IpNet)
    (trim_space : Text → Text) where
  abbrev pub step : Listener r → Event → Listener r
  step s (accepts addr) = (accept r parse_ip s addr).0
  step s (closes i) = close s i
  step s (reloads loaders) = record s {
    conns = reload r parse_ip parse_cidr (parse_limit trim_space) s.conns (load trim_space loaders);
  }

  unfoldable pub run : Listener r → List Event → Listener r
  run s [] = s
  run s (e ∷ es) = run (step s e) es
