-- ===== src/Hop/Node.antt =====
-- What hop reads of a node and of the options of a selection. A bypass or a matcher that is not nil
-- is its answer; a bypass is asked with the network, the address and the host.
use go_gost_x.Prelude.{ℕ, Bool, false, List, Option, none, some, ℤ}
use go_gost_x.Text.{Text}
use go_gost_x.Routing.Request.{Request, Values}

abbrev pub Contains : Type 0
Contains = Text → Text → Text → Bool

-- *chain.NodeFilterSettings
pub record NodeFilter : Type 0 where
  pub host : Text
  pub protocol : Text
  pub path : Text

-- *chain.Node with its options; `backup` is the flag of its metadata, as mdutil.GetBool reads it.
pub record Node : Type 0 where
  pub name : Text
  pub priority : ℤ
  pub backup : Bool
  pub bypass : Option Contains
  pub matcher : Option (Request → Bool)
  pub filter : Option NodeFilter

-- hop.SelectOptions
pub record SelectOptions : Type 0 where
  pub network : Text
  pub addr : Text
  pub client_ip : Option (List ℕ)
  pub host : Text
  pub protocol : Text
  pub method : Text
  pub path : Text
  pub query : Option Values
  pub header : Option Values
  pub body : List ℕ

-- The request that a matcher is asked with.
abbrev pub request_of : SelectOptions → Request
request_of o = record {
  client_ip = o.client_ip;
  network = o.network;
  host = o.host;
  protocol = o.protocol;
  method = o.method;
  path = o.path;
  query = o.query;
  header = o.header;
  body = o.body;
}

abbrev pub bypassed_by : Option Contains → SelectOptions → Bool
bypassed_by none o = false
bypassed_by (some contains) o = contains o.network o.addr o.host
