-- ===== src/Routing/Funcs/Table/Total.antt =====
-- Which matchers of a request may panic.
use go_gost_x.Prelude.{
  ◌≡◌, refl, sym, ◌⊎◌, inl, inr, leb, arith, ◌∙◌, Bool, true, false, List, [], ◌∷◌, some,
  if◌then◌else◌, ◌==◌, ℕ, any, All, length,
}
use go_gost_x.Text.{Text, text_eq, text_eq_iff, is_empty, bytes, lookup}
use go_gost_x.Routing.Funcs.{
  Packages, Func, expect, client_ip, network, proto, method, path, path_regexp, path_prefix,
  body_regexp, admission, bypass,
}
use go_gost_x.Routing.Funcs.Host.{host, host_regexp, host_pattern}
use go_gost_x.Routing.Funcs.Keyed.{header, header_regexp, query, query_regexp, body_json}
use go_gost_x.Routing.Funcs.Table.{http_funcs, by_name, matcher}
use go_gost_x.Routing.Funcs.Table.Each.{
  IsTotal, if-IsTotal, client_ip-IsTotal, network-IsTotal, proto-IsTotal, host_regexp-IsTotal,
  method-IsTotal, path-IsTotal, path_regexp-IsTotal, path_prefix-IsTotal, header-IsTotal,
  header_regexp-IsTotal, query-IsTotal, query_regexp-IsTotal, body_json-IsTotal,
  body_regexp-IsTotal, bypass-IsTotal, admission-IsTotal, host-IsTotal,
}

module _ {F : Type 0} (p : Packages F) where
  -- A first argument of Host that leaves a pattern.
  abbrev pub HasPattern : List Text → Type 0
  HasPattern [] = Unit {0}
  HasPattern (v ∷ vs) = is_empty (host_pattern p v) ≡ false

  -- An entry of the table is total, but that a Host needs a pattern.
  abbrev Good : Text × Func → Type 0
  Good (name, fn) =
      (values : List Text) → (name ≡ bytes "Host" → HasPattern values) → IsTotal (fn values)

  -- How many arguments there are.
  abbrev Counts : List ℕ → List Text → Type 0
  Counts ns values = any (λ n. n == length values) ns ≡ true

  expect-Good :
      (ns : List ℕ) (fn : Func)
      → ((values : List Text) → Counts ns values → IsTotal (fn values))
      → {name : Text} → Good (name, expect ns fn)
  expect-Good ns fn t values h =
      if-IsTotal (any (λ n. n == length values) ns) (fn values) (t values)

  one :
      (fn : Func)
      → ((v : Text) → IsTotal (fn (v ∷ [])))
      → (values : List Text) → Counts (1 ∷ []) values
      → IsTotal (fn values)
  one fn t [] e = absurd (ground arith)
  one fn t (v ∷ []) e = t v
  one fn t (v ∷ w ∷ more) e = absurd (ground arith)

  one_or_two :
      (fn : Func)
      → ((v : Text) (more : List Text) → leb (length more) 1 ≡ true → IsTotal (fn (v ∷ more)))
      → (values : List Text) → Counts (1 ∷ 2 ∷ []) values
      → IsTotal (fn values)
  one_or_two fn t [] e = absurd (ground arith)
  one_or_two fn t (v ∷ more) e = t v more (ground arith)

  some_of :
      (fn : Func)
      → ((v : Text) (more : List Text) → IsTotal (fn (v ∷ more)))
      → (values : List Text) → Counts (1 ∷ 2 ∷ 3 ∷ []) values
      → IsTotal (fn values)
  some_of fn t [] e = absurd (ground arith)
  some_of fn t (v ∷ more) e = t v more

  two_or_three :
      (fn : Func)
      → ((v w : Text) (more : List Text) → IsTotal (fn (v ∷ w ∷ more)))
      → (values : List Text) → Counts (2 ∷ 3 ∷ []) values
      → IsTotal (fn values)
  two_or_three fn t [] e = absurd (ground arith)
  two_or_three fn t (v ∷ []) e = absurd (ground arith)
  two_or_three fn t (v ∷ w ∷ more) e = t v w more

  host-Good : Good (bytes "Host", expect (1 ∷ []) (host p))
  host-Good values h =
      if-IsTotal (any (λ n. n == length values) (1 ∷ [])) (host p values) (with_pattern values h)
    where
      with_pattern :
          (values : List Text)
          → (bytes "Host" ≡ bytes "Host" → HasPattern values)
          → Counts (1 ∷ []) values
          → IsTotal (host p values)
      with_pattern [] f e = absurd (ground arith)
      with_pattern (v ∷ []) f e = host-IsTotal p v (f refl)
      with_pattern (v ∷ w ∷ more) f e = absurd (ground arith)

  http_funcs-Good : All Good (http_funcs p)
  unfolding http_funcs
  http_funcs-Good = (
    expect-Good (1 ∷ []) (client_ip p) (one (client_ip p) (client_ip-IsTotal p)),
    (
      expect-Good (1 ∷ []) (network p) (one (network p) (network-IsTotal p)),
      (
        expect-Good (1 ∷ []) (proto p) (one (proto p) (proto-IsTotal p)),
        (
          host-Good,
          (
            expect-Good (1 ∷ []) (host_regexp p) (one (host_regexp p) (host_regexp-IsTotal p)),
            (
              expect-Good (1 ∷ []) (method p) (one (method p) (method-IsTotal p)),
              (
                expect-Good (1 ∷ []) (path p) (one (path p) (path-IsTotal p)),
                (
                  expect-Good (1 ∷ []) (path_regexp p)
                      (one (path_regexp p) (path_regexp-IsTotal p)),
                  (
                    expect-Good (1 ∷ []) (path_prefix p)
                        (one (path_prefix p) (path_prefix-IsTotal p)),
                    (
                      expect-Good (1 ∷ 2 ∷ 3 ∷ []) (header p)
                          (some_of (header p) (header-IsTotal p)),
                      (
                        expect-Good (1 ∷ 2 ∷ []) (header_regexp p)
                            (one_or_two (header_regexp p) (header_regexp-IsTotal p)),
                        (
                          expect-Good (1 ∷ 2 ∷ 3 ∷ []) (query p)
                              (some_of (query p) (query-IsTotal p)),
                          (
                            expect-Good (1 ∷ 2 ∷ []) (query_regexp p)
                                (one_or_two (query_regexp p) (query_regexp-IsTotal p)),
                            (
                              expect-Good (2 ∷ 3 ∷ []) (body_json p)
                                  (two_or_three (body_json p) (body_json-IsTotal p)),
                              (
                                expect-Good (1 ∷ []) (body_regexp p)
                                    (one (body_regexp p) (body_regexp-IsTotal p)),
                                (
                                  expect-Good (1 ∷ []) (bypass p)
                                      (one (bypass p) (bypass-IsTotal p)),
                                  (
                                    expect-Good (1 ∷ []) (admission p)
                                        (one (admission p) (admission-IsTotal p)),
                                    tt,
                                  ),
                                ),
                              ),
                            ),
                          ),
                        ),
                      ),
                    ),
                  ),
                ),
              ),
            ),
          ),
        ),
      ),
    ),
  )

  -- A name that the table has.
  abbrev pub Known : List (Text × Func) → Text → Type 0
  Known [] name = ⊥
  Known ((k, fn) ∷ m) name = (k ≡ name) ⊎ Known m name

  lookup-IsTotal :
      (m : List (Text × Func)) (name : Text) (values : List Text)
      → All Good m
      → Known m name
      → (name ≡ bytes "Host" → HasPattern values)
      → IsTotal (by_name p (lookup name m) values)
  lookup-IsTotal [] name values a n h = absurd n
  lookup-IsTotal ((k, fn) ∷ m) name values (g, a) n h =
      by_case (text_eq k name) refl n (lookup-IsTotal m name values a)
    where
      by_case :
          (b : Bool)
          → text_eq k name ≡ b
          → (k ≡ name) ⊎ Known m name
          → (Known m name
              → (name ≡ bytes "Host" → HasPattern values)
              → IsTotal (by_name p (lookup name m) values))
          → IsTotal (by_name p (if b then some fn else lookup name m) values)
      by_case true e n t = g values (λ q. h (sym ((text_eq_iff k name).0 e) ∙ q))
      by_case false e (inl q) t =
          absurd (let r : true ≡ false = sym ((text_eq_iff k name).1 q) ∙ e in cc)
      by_case false e (inr n) t = t n h

  -- A matcher of a rule whose name is one of the table's does not panic, whatever its arguments are
  -- and how many, neither where it is built nor on any request, but for Host with an argument that
  -- is empty or only white space.
  pub matcher-IsTotal :
      (name : Text) (values : List Text)
      → Known (http_funcs p) name
      → (name ≡ bytes "Host" → HasPattern values)
      → IsTotal (matcher p name values)
  unfolding matcher
  matcher-IsTotal name values n h = lookup-IsTotal (http_funcs p) name values http_funcs-Good n h
