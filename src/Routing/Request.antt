-- ===== src/Routing/Request.antt =====
-- routing.Request: what a routing rule reads of a request. A nil map or address is none.
use go_gost_x.Prelude.{ℕ, List, Option}
use go_gost_x.Text.{Text}

-- url.Values and http.Header
abbrev pub Values : Type 0
Values = List (Text × List Text)

pub record Request : Type 0 where
  pub client_ip : Option (List ℕ)
  pub network : Text
  pub host : Text
  pub protocol : Text
  pub method : Text
  pub path : Text
  pub query : Option Values
  pub header : Option Values
  pub body : List ℕ
