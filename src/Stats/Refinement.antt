-- ===== src/Stats/Refinement.antt =====
-- What the counters mean in terms of the calls that were made.
use go_gost_x.Prelude.{
  not, ℕ, ◌≡◌, refl, ◌∙◌, ap, sym, Bool, true, false, ◌&&◌, List, [], ◌∷◌, some, ℤ, pos, ◌+ℤ◌,
  ltb_ℤ, if◌then◌else◌, arith,
}
use go_gost_x.Stats.{
  Kind, Stats, Call, new_stats, to_uint64, plus, add, get, reset, is_updated, step, run,
}
use go_gost_x.Stats.Wrap.{to_uint64-add}

-- The kind of an Add, or of a Get, is the one asked for; an unknown kind is none.
abbrev pub same : Kind → Kind → Bool
same Kind.total_conns Kind.total_conns = true
same Kind.current_conns Kind.current_conns = true
same Kind.input_bytes Kind.input_bytes = true
same Kind.output_bytes Kind.output_bytes = true
same Kind.total_errs Kind.total_errs = true
same _ _ = false

abbrev pub is_traffic : Kind → Bool
is_traffic Kind.input_bytes = true
is_traffic Kind.output_bytes = true
is_traffic _ = false

-- Totals only grow.
abbrev pub is_total : Kind → Bool
is_total Kind.total_conns = true
is_total Kind.total_errs = true
is_total _ = false

-- What a call adds to a kind.
abbrev pub amount : Kind → Call → ℤ
amount k (Call.adds j n) =
    if same j k then (if is_total k && not (ltb_ℤ (pos 0) n) then pos 0 else n) else pos 0
amount k _ = pos 0

-- The calls that start a kind anew: each Reset, and each Get of the kind where it resets traffic.
abbrev pub clears : Bool → Kind → Call → Bool
clears r k Call.resets = true
clears r k (Call.gets j) = r && is_traffic k && same j k
clears r k _ = false

-- The calls since the last that passes the test.
abbrev pub since : (Call → Bool) → List Call → List Call
since p [] = []
since p (c ∷ cs) = if p c then [] else c ∷ since p cs

abbrev pub sum : (Call → ℤ) → List Call → ℤ
sum f [] = pos 0
sum f (c ∷ cs) = sum f cs +ℤ f c

unfoldable pub pending : Bool → Kind → List Call → ℤ
pending r k cs = sum (amount k) (since (clears r k) cs)

-- Whether there is an Add since the last Reset or IsUpdated.
abbrev pub touched : List Call → Bool
touched [] = false
touched (Call.adds j n ∷ cs) = true
touched (Call.gets j ∷ cs) = touched cs
touched (Call.resets ∷ cs) = false
touched (Call.asks ∷ cs) = false

abbrev pub word : Bool → Kind → List Call → ℕ
word r k cs = to_uint64 (pending r k cs)

-- The state that the calls stand for.
abbrev view : Bool → List Call → Stats
view r cs = record {
  updated = touched cs;
  total_conns = word r Kind.total_conns cs;
  current_conns = word r Kind.current_conns cs;
  input_bytes = word r Kind.input_bytes cs;
  output_bytes = word r Kind.output_bytes cs;
  total_errs = word r Kind.total_errs cs;
  reset_traffic = r;
}

plus-zero : (n : ℤ) → plus (to_uint64 n) (pos 0) ≡ to_uint64 n
plus-zero n = ground arith

-- One more call: the kind starts anew or its word grows by the amount.
pub word_step :
    (r : Bool) (k : Kind) (c : Call) (cs : List Call)
    → word r k (c ∷ cs) ≡ (if clears r k c then 0 else plus (word r k cs) (amount k c))
unfolding pending
word_step r k c cs = go (clears r k c)
  where
    go :
        (b : Bool)
        → to_uint64 (sum (amount k) (if b then [] else c ∷ since (clears r k) cs))
          ≡ (if b then 0 else plus (word r k cs) (amount k c))
    go true = refl
    go false = sym (to_uint64-add (pending r k cs) (amount k c))

-- A word that nothing is added to.
word_idle : (r : Bool) (k : Kind) (cs : List Call) → plus (word r k cs) (pos 0) ≡ word r k cs
word_idle r k cs = plus-zero (pending r k cs)

module _ (r : Bool) (c : Call) (cs : List Call) where
  abbrev value : Kind → ℕ
  value k = if clears r k c then 0 else plus (word r k cs) (amount k c)

  -- The words of the state after a call.
  view_cons : view r (c ∷ cs) ≡ record {
    updated = touched (c ∷ cs);
    total_conns = value Kind.total_conns;
    current_conns = value Kind.current_conns;
    input_bytes = value Kind.input_bytes;
    output_bytes = value Kind.output_bytes;
    total_errs = value Kind.total_errs;
    reset_traffic = r;
  }
  view_cons = λ i. record {
    updated = touched (c ∷ cs);
    total_conns = word_step r Kind.total_conns c cs i;
    current_conns = word_step r Kind.current_conns c cs i;
    input_bytes = word_step r Kind.input_bytes c cs i;
    output_bytes = word_step r Kind.output_bytes c cs i;
    total_errs = word_step r Kind.total_errs c cs i;
    reset_traffic = r;
  }

  step-view : step (some (view r cs)) c ≡ some (view r (c ∷ cs))
  unfolding add get reset is_updated
  step-view = rw view_cons (
      ground (
        arith,
        word_idle r Kind.total_conns cs,
        word_idle r Kind.current_conns cs,
        word_idle r Kind.input_bytes cs,
        word_idle r Kind.output_bytes cs,
        word_idle r Kind.total_errs cs,
      ))

run-view : (r : Bool) (cs : List Call) → run (some (new_stats r)) cs ≡ some (view r cs)
unfolding run new_stats pending
run-view r [] = refl
run-view r (c ∷ cs) = ap (λ s. step s c) (run-view r cs) ∙ step-view r c cs

word_other : (r : Bool) (cs : List Call) → word r Kind.other cs ≡ 0
unfolding pending
word_other r [] = refl
word_other r (c ∷ cs) = word_step r Kind.other c cs ∙ ground (arith, word_other r cs)

read_view : (r : Bool) (cs : List Call) (k : Kind) → (get (some (view r cs)) k).1 ≡ word r k cs
unfolding get
read_view r cs Kind.total_conns = refl
read_view r cs Kind.current_conns = refl
read_view r cs Kind.input_bytes = ground arith
read_view r cs Kind.output_bytes = ground arith
read_view r cs Kind.total_errs = refl
read_view r cs Kind.other = sym (word_other r cs)

-- After any history of calls on a new value, Get returns, for each kind, the sum of what was added
-- since the last Reset, or the last Get of the kind where it resets traffic, modulo 2 ^ 64; the
-- totals count positive numbers only, and an unknown kind gives 0. IsUpdated answers whether there
-- was an Add since the last Reset or IsUpdated.
pub run-get :
    (r : Bool) (cs : List Call) (k : Kind)
    → ((get (run (some (new_stats r)) cs) k).1 ≡ to_uint64 (pending r k cs))
      × ((is_updated (run (some (new_stats r)) cs)).1 ≡ some (touched cs))
unfolding get is_updated
run-get r cs k = rw (run-view r cs) (read_view r cs k, refl)
