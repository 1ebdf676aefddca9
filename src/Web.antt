-- ===== src/Web.antt =====
-- YahooWeb/src: the answers of the web servers. The vendored web server reads the requests and sends the
-- replies; a request is what the code reads of it, and a handler gives whether it has handled the
-- request and the blocks of data that it sent. The files under `htdoc` are a parameter.
pub mod Insider
pub mod Hosts
pub mod MyYahoo
use giblet.Common.{
  ℕ, zero, suc, Bool, true, false, ◌&&◌, ◌==◌, if◌then◌else◌, Option, none, some, List, [], ◌∷◌,
  ◌++◌, Bytes, codes,
}
use giblet.Map.{Map, find, emplace, assign}

-- `mg_connection`: the header `Host`, `uri` and `query_string`, each of which may be null.
pub record Request : Type 0 where
  pub host : Option Bytes
  pub uri : Option Bytes
  pub query_string : Option Bytes

abbrev pub Handler : Type 0
Handler = Request → Bool × List Bytes

-- The text of a pointer that may be null.
abbrev pub text_of : Option Bytes → Bytes
text_of none = []
text_of (some s) = s

abbrev pub query_of : Option Bytes → Bytes
query_of none = []
query_of (some s) = 63 ∷ s

-- `GetFullURL`
unfoldable pub get_full_url : Request → Bytes
get_full_url conn = text_of conn.host ++ text_of conn.uri ++ query_of conn.query_string

abbrev pub reply_file : Option Bytes → Bool × List Bytes
reply_file none = (false, [])
reply_file (some reply) = (true, reply ∷ [])

module _ (files : Bytes → Option Bytes) where
  unfoldable pub generic_serve_file : Bytes → Bool × List Bytes
  generic_serve_file filepath = reply_file (files filepath)

  abbrev serve_uri : Bytes → Option Bytes → Bool × List Bytes
  serve_uri root_path none = (false, [])
  serve_uri root_path (some uri) = generic_serve_file (root_path ++ uri)

  unfoldable pub generic_handler : Bytes → Handler
  generic_handler root_path conn = serve_uri root_path conn.uri

-- `WebServer::OnRequest`
unfoldable pub on_web_request : Handler
on_web_request conn = (true, get_full_url conn ∷ [])

-- `find(c)` and a cut there: the text in front of the first such character, or all of it.
unfoldable pub before : ℕ → Bytes → Bytes
before c [] = []
before c (x ∷ s) = if x == c then [] else x ∷ before c s

abbrev insert_with : {V : Type 0} → Option V → Bytes → V → Map V → Map V × Bool
insert_with none k v m = (emplace k v m, true)
insert_with (some w) k v m = (assign k v m, false)

-- `std::map::insert_or_assign`: the map, and whether the key is new.
unfoldable pub insert_or_assign : {V : Type 0} → Bytes → V → Map V → Map V × Bool
insert_or_assign k v m = insert_with (find k m) k v m

-- `MultilHostWebServer::Add`
unfoldable pub add_host : Bytes → Handler → Map Handler → Map Handler × Bool
add_host hostname handler handlers = insert_or_assign hostname handler handlers

-- The handler of a host, if there is one.
abbrev pub call_handler : Option Handler → Handler
call_handler none conn = (false, [])
call_handler (some handler) conn = handler conn

-- The handler of the host that a request names, without the port.
unfoldable pub dispatch_host : Map Handler → Option Bytes → Handler
dispatch_host handlers none conn = (false, [])
dispatch_host handlers (some host) conn = call_handler (find (before 58 host) handlers) conn

-- What a request that no handler has handled gets at the end: its own address.
abbrev pub finish_request : Request → Bool × List Bytes → Bool × List Bytes
finish_request conn (true, replies) = (true, replies)
finish_request conn (false, replies) = (true, replies ++ get_full_url conn ∷ [])

-- `MultilHostWebServer::OnRequest`
unfoldable pub on_host_request : Map Handler → Handler
on_host_request handlers conn = finish_request conn (dispatch_host handlers conn.host conn)
