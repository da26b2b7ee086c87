-- ===== src/Hosts/Lines.antt =====
-- The lines of the table: parseLine, parseMapping, load.
use go_gost_x.Prelude.{List, [], ◌∷◌, ◌++◌, Option, none, some}
use go_gost_x.Loader.{fields_of, Source, lists, reads, Loaders}
use go_gost_x.Text.{Text}
use go_gost_x.Hosts.{Ip, Mapping}

abbrev names : List Text → Option Ip → List Mapping
names vs none = []
names [] (some ip) = []
names (v ∷ vs) (some ip) = record { hostname = v; ip = ip } ∷ names vs (some ip)

module _ (trim_space : Text → Text) (parse_ip : Text → Option Ip) where
  abbrev of_fields : List Text → List Mapping
  of_fields [] = []
  of_fields (addr ∷ []) = []
  of_fields (addr ∷ v ∷ vs) = names (v ∷ vs) (parse_ip addr)

  unfoldable pub parse_line : Text → List Mapping
  parse_line s = of_fields (fields_of trim_space s)

  abbrev parse_lines : List Text → List Mapping
  parse_lines [] = []
  parse_lines (s ∷ ss) = parse_line s ++ parse_lines ss

  unfoldable pub parse_mapping : Option (List Text) → List Mapping
  unfolding parse_line
  parse_mapping none = []
  parse_mapping (some lines) = parse_lines lines

  abbrev from_source : Option Source → List Mapping
  from_source none = []
  from_source (some (lists ss)) = parse_lines ss
  from_source (some (reads r)) = parse_mapping r

  abbrev from_http : Option (Option (List Text)) → List Mapping
  from_http none = []
  from_http (some r) = parse_mapping r

  unfoldable pub load : Loaders → List Mapping
  unfolding parse_line parse_mapping
  load l = from_source l.file_loader ++ (from_source l.redis_loader ++ from_http l.http_loader)
