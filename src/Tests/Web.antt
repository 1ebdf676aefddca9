-- ===== src/Tests/Web.antt =====
-- The web servers at work: a server with two hosts, and a file outside the directory that is served.
use giblet.Common.{
  ◌≡◌, refl, false, if◌then◌else◌, Option, none, some, [], ◌∷◌, ◌++◌, Bytes, equals, codes, arith,
  ℕ, List, ℤ, pos, negsuc, length, map_outcome,
}
use giblet.Runtime.{to_string, stol, c_string}
use giblet.Map.{Map, find}
use giblet.Web.{
  Request, Handler, before, add_host, dispatch_host, finish_request, on_host_request,
  generic_serve_file,
}
use giblet.Web.Hosts.{on_host_request-add_host, dispatch_host_port}
use giblet.Web.MyYahoo.{initialize_header, dispatch_packet, on_debug_send_packet_request}
use giblet.Web.MyYahoo.Debug.{HasNumber, HasFields, on_debug_send_packet_request_lem}
use giblet.Builder.{append_all}
use giblet.Web.Insider.{on_insider_request}
use giblet.Web.Insider.Imv.{on_insider_request-imv}

abbrev files : Bytes → Option Bytes
files path =
    if equals path (codes "htdoc/insider.yahoo.com/imv/../../a.yim")
    then some (codes "data")
    else none

abbrev my_yahoo : Handler
my_yahoo conn = (false, [])

abbrev hosts : Map Handler
hosts = (codes "insider", on_insider_request files) ∷ []

abbrev request : Request
request = record { host = some (codes "my:41337"); uri = some (codes "/"); query_string = none }

on_host_request-add_host_example :
    on_host_request (add_host (codes "my") my_yahoo hosts).0 request ≡ (
      if equals (codes "my") (before 58 (codes "my:41337"))
      then finish_request request (my_yahoo request)
      else on_host_request hosts request)
on_host_request-add_host_example =
    on_host_request-add_host (codes "my") (codes "my:41337") my_yahoo hosts request refl

dispatch_host_port_example :
    dispatch_host hosts (some (codes "my" ++ 58 ∷ codes "41337")) request
    ≡ dispatch_host hosts (some (codes "my")) request
dispatch_host_port_example =
    dispatch_host_port hosts (codes "my") (codes "41337") request (ground arith)

on_insider_request-imv_example :
    on_insider_request files (record {
      host = some (codes "insider");
      uri = some (codes "/ycontent/");
      query_string = some (codes "getimv=" ++ (codes "../../a" ++ 38 ∷ codes "b=1"));
    })
    ≡ generic_serve_file files
        (codes "htdoc/insider.yahoo.com/imv/" ++ codes "../../a" ++ codes ".yim")
on_insider_request-imv_example =
    on_insider_request-imv files (codes "insider") (codes "../../a") (codes "b=1") (ground arith)
      (ground arith)

-- The variables of a request, behind which a buffer ends in a zero byte.
abbrev variables : Map Bytes
variables =
    (codes "serviceid", codes "6")
    ∷ (codes "attribute", codes "1")
    ∷ (codes "key0", codes "4")
    ∷ (codes "value0", codes "bob")
    ∷ []

abbrev variable : Option Bytes → ℤ × Bytes
variable none = (negsuc 0, 0 ∷ [])
variable (some s) = (pos (length s), s ++ 0 ∷ [])

abbrev get_var : Bytes → Bytes → ℤ × Bytes
get_var name buffer = variable (find name variables)

abbrev fields : List (ℕ × Bytes)
fields = (4, codes "bob") ∷ []

serviceid-HasNumber : HasNumber get_var (codes "serviceid") (pos 6)
unfolding stol find equals
serviceid-HasNumber buffer = (0, codes "6" ++ 0 ∷ [], refl, refl)

attribute-HasNumber : HasNumber get_var (codes "attribute") (pos 1)
unfolding stol find equals
attribute-HasNumber buffer = (0, codes "1" ++ 0 ∷ [], refl, refl)

fields-HasFields : HasFields get_var 0 fields
unfolding stol find to_string c_string equals
fields-HasFields =
    (λ buffer. (0, codes "4" ++ 0 ∷ [], refl, refl), λ buffer. refl, λ buffer. (0, 0 ∷ [], refl))

on_debug_send_packet_request_lem_example :
    on_debug_send_packet_request get_var 2 []
    ≡ map_outcome dispatch_packet (append_all fields (initialize_header (pos 6) (pos 1)))
on_debug_send_packet_request_lem_example =
    on_debug_send_packet_request_lem get_var (pos 6) (pos 1) fields 2 [] serviceid-HasNumber
      attribute-HasNumber fields-HasFields (omega arith)
