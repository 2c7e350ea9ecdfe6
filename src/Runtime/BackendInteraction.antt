-- ===== src/Runtime/BackendInteraction.antt =====
-- internal/runtime/backend_interaction_agent.go: asking a rule's backend, page after page. The HTTP
-- client, the parsing of addresses and the decoding of JSON come as arguments; the client's world is
-- what it may change.
pub mod Pages
use pass_ctrl.Prelude.{
  ℕ, zero, suc, ◌^◌, String, Bool, true, false, not, ◌||◌, ◌&&◌, Option, none, some, List, [], ◌∷◌,
  ◌++◌, if◌then◌else◌, ◌==◌, ℤ, pos, negsuc, any, is_empty, Result, ok, err, ◌>>=◌, ◌>>◌, pos_part,
  leb_ℤ, ltb,
}
use pass_ctrl.Text.{◌+s◌, trim_space, to_lower, contains}
use pass_ctrl.Assoc.{Assoc, get}
use pass_ctrl.Value.{Value}
use pass_ctrl.Rulechain.Types.{BackendDefinition}
use pass_ctrl.Rulechain.Auth.{within}
use pass_ctrl.Rulechain.Backend.{accepts, Resolver, next_link_from_header}
use pass_ctrl.Pipeline.State.{BackendPageState, State, first_values}

pub record RenderedBackendRequest : Type 0 where
  pub method : String
  pub url : String
  pub headers : Assoc String
  pub query : Assoc String
  pub body : String

-- What the client is asked for. The query is added to the address, but for the parameters that the
-- address has already.
pub record HttpCall : Type 0 where
  pub method : String
  pub url : String
  pub headers : Assoc String
  pub query : Assoc String
  pub body : String

-- What it answers: the address that was asked for, and the body as reading it up to a number of bytes
-- gives it, with the closing of it.
pub record HttpReply : Type 0 where
  pub url : String
  pub status : ℤ
  pub headers : Assoc (List String)
  pub read : ℕ → Result String
  pub close : Result (Unit {0})

pub record Web (W : Type 0) : Type 0 where
  pub parse_url : String → Result String
  pub resolve : Resolver
  pub new_request : HttpCall → Result HttpCall
  pub send : HttpCall → W → Result HttpReply × W
  -- with normalizeJSONNumbers
  pub decode_json : String → Result Value

abbrev values_of : Option (List String) → List String
values_of none = []
values_of (some values) = values

-- Header.Values, Header.Get
pub header_values : String → Assoc (List String) → List String
header_values name headers = values_of (get name headers)

abbrev first_or_empty : List String → String
first_or_empty [] = ""
first_or_empty (value ∷ values) = value

abbrev nonblank : Assoc String → Assoc String
nonblank [] = []
nonblank ((name, value) ∷ m) =
    let rest = nonblank m in if trim_space value == "" then rest else (name, value) ∷ rest

-- Where the loop is: the addresses that were asked for and the pages that came, with the error that
-- ended it, if any.
pub record Walk (W : Type 0) : Type 0 where
  pub result : Result (Unit {0})
  pub visited : List String
  pub pages : List BackendPageState
  pub state : State
  pub world : W

module _ {W : Type 0} (web : Web W) (rendered : RenderedBackendRequest)
    (backend : BackendDefinition) where
  -- The request of a page: the body and the headers go with the first one only.
  page_call : Bool → String → HttpCall
  page_call first url = record {
    method = rendered.method;
    url = url;
    headers = if first then nonblank rendered.headers else [];
    query = rendered.query;
    body = if first then rendered.body else "";
  }

  decoded_body : HttpReply → String → Result Value
  decoded_body reply text =
      if contains (to_lower (first_or_empty (header_values "Content-Type" reply.headers))) "json"
        && not (text == "")
      then within "backend json decode" (web.decode_json text)
      else ok Value.null

  page_of : HttpReply → Result BackendPageState
  unfolding decoded_body
  page_of reply = do
    text ← within "backend read" (reply.read (2 ^ 20))
    within "backend close" reply.close
    body ← decoded_body reply text
    ok (record {
      url = reply.url;
      status = reply.status;
      headers = first_values reply.headers [];
      body = body;
      body_text = text;
      accepted = accepts backend reply.status;
    })

  reply_page : Result HttpReply × W → Result (HttpReply × BackendPageState) × W
  unfolding page_of
  reply_page (err e, w) = (err ("backend request: " +s e), w)
  reply_page (ok reply, w) = (page_of reply >>= λ page. ok (reply, page), w)

  send_call : Result HttpCall → W → Result (HttpReply × BackendPageState) × W
  unfolding reply_page
  send_call (err e) w = (err e, w)
  send_call (ok call) w = reply_page (web.send call w)

  -- One round of the loop, up to the page.
  fetch_page : Bool → String → W → Result (HttpReply × BackendPageState) × W
  unfolding send_call page_call
  fetch_page first url w =
      send_call
        (do
          parsed ← within "backend request url" (web.parse_url url)
          within "backend request build" (web.new_request (page_call first parsed)))
        w

  mark_accepted : BackendPageState → State → State
  mark_accepted page s =
      let answer = s.backend in
      record s { backend = record answer { accepted = page.accepted || answer.accepted } }

  next_url : HttpReply → String
  next_url reply =
      if backend.pagination.kind == "link-header"
      then next_link_from_header web.resolve (header_values "Link" reply.headers) reply.url
      else ""

  continue_with :
      (String → Walk W → Walk W) → Result (HttpReply × BackendPageState) × W → Walk W → Walk W
  unfolding mark_accepted next_url
  continue_with rest (err e, w) walk = record walk { result = err e; world = w }
  continue_with rest (ok answer, w) walk = rest (next_url answer.0) (record walk {
    pages = walk.pages ++ answer.1 ∷ [];
    state = mark_accepted answer.1 walk.state;
    world = w;
  })

  -- The loop of Execute, with the number of rounds that are left.
  unfoldable pub walk_pages : ℕ → String → Walk W → Walk W
  unfolding continue_with fetch_page
  walk_pages zero url walk = walk
  walk_pages (suc n) url walk =
      if trim_space url == "" || any (λ seen. seen == trim_space url) walk.visited
      then walk
      else continue_with (walk_pages n)
          (fetch_page (is_empty walk.visited) (trim_space url) walk.world)
          (record walk { visited = walk.visited ++ trim_space url ∷ [] })

  max_pages : ℕ
  max_pages =
      if leb_ℤ backend.pagination.max_pages (pos 0)
      then 1
      else pos_part backend.pagination.max_pages

last_page : BackendPageState → List BackendPageState → BackendPageState
last_page page [] = page
last_page page (next ∷ pages) = last_page next pages

keep_pages : List BackendPageState → State → State
unfolding last_page
keep_pages [] s = s
keep_pages (page ∷ pages) s =
    let answer = s.backend in
    let last = last_page page pages in
    record s {
      backend = record answer {
        requested = true;
        pages = page ∷ pages;
        status = last.status;
        headers = last.headers;
        body = last.body;
        body_text = last.body_text;
        accepted = last.accepted;
      };
    }

finish_walk : {W : Type 0} → Walk W → Result (Unit {0}) × State × W
unfolding keep_pages
finish_walk walk = elim walk.result [
  | err e ↦ (err e, walk.state, walk.world)
  | ok done ↦ (ok tt, keep_pages walk.pages walk.state, walk.world)
]

-- Execute
unfoldable pub execute_backend :
    {W : Type 0}
    → Option (Web W)
    → RenderedBackendRequest
    → BackendDefinition
    → State
    → W
    → Result (Unit {0}) × State × W
unfolding finish_walk max_pages
execute_backend none rendered backend s w =
    (err "backend interaction agent: http client missing", s, w)
execute_backend (some web) rendered backend s w = finish_walk (
    walk_pages web rendered backend (max_pages web rendered backend) rendered.url
      (record { result = ok tt; visited = []; pages = []; state = s; world = w }))
