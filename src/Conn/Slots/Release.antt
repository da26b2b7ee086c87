-- ===== src/Conn/Slots/Release.antt =====
-- A group that is released: each of its limiters counts one less.
use go_gost_x.Prelude.{
  ◌&&◌, ◌||◌, not, ltb, ltb_ℤ, pos, ==_iff, ◌||◌, ℕ, suc, ◌==◌, ◌≡◌, refl, ◌∙◌, ap, sym, Bool, true,
  false, List, [], ◌∷◌, negsuc, if◌then◌else◌,
}
use go_gost_x.Conn.{take, undo, not, allow, Heap, put, raise, visit, group_allow}
use go_gost_x.Conn.Undo.{put-raise}
use go_gost_x.Conn.Group.{member, Distinct}

abbrev lower : Heap → ℕ → Heap
lower h x = put h x (raise (negsuc 0) (h x))

visit-release :
    (h : Heap) (i : ℕ) (xs : List ℕ) (b : Bool) (j : ℕ)
    → Distinct xs
    → ((visit h (negsuc 0) i xs b).0 j ≡ (if member j xs then raise (negsuc 0) (h j) else h j))
unfolding visit allow
visit-release h i [] b j d = refl
visit-release h i (x ∷ xs) b j (e, d) =
    visit-release (lower h x) (suc i) xs true j d ∙ once (x == j) refl (put-raise h x (negsuc 0) j)
  where
    once :
        (c : Bool)
        → (x == j) ≡ c
        → lower h x j ≡ (if c then raise (negsuc 0) (h j) else h j)
        → (if member j xs then raise (negsuc 0) (lower h x j) else lower h x j)
          ≡ (if c || member j xs then raise (negsuc 0) (h j) else h j)
    once true at eq =
        let absent : member j xs ≡ false = ap (λ i. member i xs) (sym ((==_iff x j).0 at)) ∙ e in
        ap (λ c. if c then raise (negsuc 0) (lower h x j) else lower h x j) absent ∙ eq
    once false at eq = ap (λ l. if member j xs then raise (negsuc 0) l else l) eq

pub group_release :
    (h : Heap) (xs : List ℕ) (j : ℕ)
    → Distinct xs
    → (group_allow h xs (negsuc 0)).0 j ≡ (if member j xs then raise (negsuc 0) (h j) else h j)
unfolding group_allow
group_release h xs j d = none_back v.2 (ltb 0 v.1) ∙ visit-release h 0 xs false j d
  where
    v : Heap × ℕ × Bool
    v = visit h (negsuc 0) 0 xs false

    answer : Bool → Heap × Bool
    answer b = if b then (undo v.0 (negsuc 0) (take v.1 xs), v.2) else (v.0, v.2)

    none_back : (b c : Bool) → (answer (not b && (c && ltb_ℤ (pos 0) (negsuc 0)))).0 j ≡ v.0 j
    none_back true c = refl
    none_back false true = refl
    none_back false false = refl
