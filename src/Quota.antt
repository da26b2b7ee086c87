-- ===== src/Quota.antt =====
-- limiter/quota/limiter.go: a quota of bytes within a window of time. The atomic fields are fields
-- of one record, and each method is one step; time.Now is the argument `now`, in nanoseconds. The
-- channel that waiters hold is its generation: closing and replacing it starts the next one. Ticks
-- of the loop of `run` are steps of their own, with its variable wasActive as a field.
pub mod Invariant
pub mod Wakeup
pub mod Persist
use go_gost_x.Prelude.{
  ℕ, zero, suc, ◌+◌, ◌*◌, ◌/◌, ◌%◌, ◌^◌, Bool, true, false, not, ◌&&◌, ◌||◌, List, [], ◌∷◌, Option,
  none, some, ℤ, pos, negsuc, neg, ltb_ℤ, leb_ℤ, eq_ℤ, pos_part, ltb, leb, if◌then◌else◌,
}

pub data Direction : Type 0 where
  total into out : Direction

-- A record of the store.
pub record Record : Type 0 where
  pub used : ℕ
  pub limit : ℕ
  pub starts_at : ℤ
  pub expires_at : ℤ
  pub updated_at : ℤ

pub record Limiter : Type 0 where
  pub direction : Direction
  pub store : Bool
  pub used : ℕ
  pub limit : ℕ
  pub starts_at : ℤ
  pub expires_at : ℤ
  pub blocked : Bool
  pub dirty : Bool
  pub closed : Bool
  pub generation : ℕ
  pub was_active : Bool
  -- The records handed to Save, the last one first.
  pub saved : List Record

pub record Options : Type 0 where
  pub limit : ℕ
  pub starts_at : Option ℤ
  pub expires_at : Option ℤ
  pub direction : Direction
  pub store : Bool

pub record Update : Type 0 where
  pub used : Option ℕ
  pub limit : Option ℕ
  pub starts_at : Option (Option ℤ)
  pub expires_at : Option (Option ℤ)

pub record Snapshot : Type 0 where
  pub used : ℕ
  pub limit : ℕ
  pub starts_at_unix : ℤ
  pub expires_at_unix : ℤ
  pub active : Bool
  pub expired : Bool
  pub blocked : Bool
  pub direction : Direction

-- The zero time.Time is none.
abbrev pub unix_nano_or_zero : Option ℤ → ℤ
unix_nano_or_zero none = pos 0
unix_nano_or_zero (some t) = t

abbrev pub is_set : ℤ → Bool
is_set t = not (eq_ℤ t (pos 0))

abbrev pub in_window : ℤ → ℤ → ℤ → Bool
in_window starts_at expires_at now =
    if is_set starts_at && ltb_ℤ now starts_at
    then false
    else if is_set expires_at && leb_ℤ expires_at now
    then false
    else true

abbrev pub active : Limiter → ℤ → Bool
active l now = in_window l.starts_at l.expires_at now

abbrev pub enforcing : Limiter → ℤ → Bool
enforcing l now = ltb 0 l.limit && active l now

-- Blocked()
unfoldable pub is_blocked : Limiter → ℤ → Bool
is_blocked l now = if l.closed || not l.blocked then false else enforcing l now

-- The counter of a record counts only within the same window.
abbrev pub restored : ℤ → ℤ → Option Record → ℕ
restored starts_at expires_at none = 0
restored starts_at expires_at (some rec) =
    if eq_ℤ rec.starts_at starts_at && eq_ℤ rec.expires_at expires_at then rec.used else 0

-- `loaded` is what the store's Load returns: none on an error, or where there is no record.
unfoldable pub new_limiter : Options → Option Record → ℤ → Limiter
new_limiter o loaded now =
    let starts_at = unix_nano_or_zero o.starts_at in
    let expires_at = unix_nano_or_zero o.expires_at in
    let used = if o.store then restored starts_at expires_at loaded else 0 in
    let act = in_window starts_at expires_at now in
    record {
      direction = o.direction;
      store = o.store;
      used = used;
      limit = o.limit;
      starts_at = starts_at;
      expires_at = expires_at;
      blocked = ltb 0 o.limit && act && leb o.limit used;
      dirty = false;
      closed = false;
      generation = 0;
      was_active = act;
      saved = [];
    }

-- The two `switch` cases of `add` that return.
abbrev pub counts : Direction → Direction → Bool
counts into into = true
counts into dir = false
counts out out = true
counts out dir = false
counts total dir = true

abbrev block : Limiter → Limiter
block l = if l.blocked then l else record l { blocked = true }

-- The uint64 counter wraps.
unfoldable pub add : Limiter → ℤ → Direction → ℤ → Limiter
add l n dir now =
    if leb_ℤ n (pos 0) || l.closed
    then l
    else if not (counts l.direction dir)
    then l
    else if not (active l now)
    then l
    else (let used = (l.used + pos_part n) % 2 ^ 64 in
        let l' = record l { used = used; dirty = true } in
        if ltb 0 l.limit && leb l.limit used then block l' else l')

abbrev pub notify : Limiter → Limiter
notify l = record l { generation = suc l.generation }

abbrev persist : Limiter → ℤ → Limiter
persist l now = if not l.store then l else record l {
  saved =
      record {
        used = l.used;
        limit = l.limit;
        starts_at = l.starts_at;
        expires_at = l.expires_at;
        updated_at = now;
      }
      ∷ l.saved;
}

abbrev flush_now : Limiter → ℤ → Limiter
flush_now l now = persist (record l { dirty = false }) now

abbrev reevaluate : Limiter → ℤ → Limiter
reevaluate l now =
    let should_block = enforcing l now && leb l.limit l.used in
    let l' = record l { blocked = should_block } in
    flush_now (if not should_block then notify l' else l') now

abbrev pub or_old {ℓ} : {A : Type ℓ} → Option A → A → A
or_old none old = old
or_old (some a) old = a

abbrev pub or_old_time : Option (Option ℤ) → ℤ → ℤ
or_old_time none old = old
or_old_time (some t) old = unix_nano_or_zero t

-- The stores of Update; a field that is nil leaves the limiter's.
abbrev overwrite : Limiter → Update → Limiter
overwrite l u = record l {
  used = or_old u.used l.used;
  limit = or_old u.limit l.limit;
  starts_at = or_old_time u.starts_at l.starts_at;
  expires_at = or_old_time u.expires_at l.expires_at;
}

unfoldable pub update : Limiter → Update → ℤ → Limiter
update l u now = reevaluate (overwrite l u) now

-- The case of `run` for the flush ticker.
unfoldable pub flush_tick : Limiter → ℤ → Limiter
flush_tick l now = if l.dirty then persist (record l { dirty = false }) now else l

-- The case of `run` for the ticker of one second.
unfoldable pub bound_tick : Limiter → ℤ → Limiter
bound_tick l now =
    let act = active l now in
    if (if act then l.was_active else not l.was_active)
    then l
    else persist
        (notify (record l {
          was_active = act;
          blocked = if act then ltb 0 l.limit && leb l.limit l.used else false;
        }))
        now

-- The body runs once.
unfoldable pub close : Limiter → ℤ → Limiter
close l now = if l.closed then l else notify (flush_now (record l { closed = true }) now)

abbrev nano_to_sec : ℤ → ℤ
nano_to_sec (pos n) = pos (n / 1000000000)
nano_to_sec (negsuc n) = neg (suc n / 1000000000)

unfoldable pub snapshot : Limiter → ℤ → Snapshot
unfolding is_blocked
snapshot l now = record {
  used = l.used;
  limit = l.limit;
  starts_at_unix = nano_to_sec l.starts_at;
  expires_at_unix = nano_to_sec l.expires_at;
  active = active l now;
  expired = is_set l.expires_at && leb_ℤ l.expires_at now;
  blocked = is_blocked l now;
  direction = l.direction;
}

-- What can happen to a limiter; AddIn and AddOut are `add` with their direction.
pub data Event : Type 0 where
  adds : ℤ → Direction → Event
  updates : Update → Event
  flush_ticks bound_ticks closes : Event

unfoldable pub step : Limiter → ℤ → Event → Limiter
unfolding add update flush_tick bound_tick close
step l now (adds n dir) = add l n dir now
step l now (updates u) = update l u now
step l now flush_ticks = flush_tick l now
step l now bound_ticks = bound_tick l now
step l now closes = close l now

unfoldable pub run : Limiter → List (ℤ × Event) → Limiter
run l [] = l
run l ((now, e) ∷ es) = run (step l now e) es
