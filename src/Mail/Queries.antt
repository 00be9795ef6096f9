-- ===== src/Mail/Queries.antt =====
-- assignment-1/q3: handle_queries of server.c, and get_cid, get_gid and list_query of client.c.
-- `decimal` is what sprintf writes for `%d`.
pub mod Answers
use netprog_assignments.Base.{
  ℕ, suc, Bool, true, false, Option, none, some, List, [], ◌∷◌, ◌++◌, ◌==◌, ltb, if◌then◌else◌,
  length, ℤ, pos, negsuc, CString, codes, str_eq,
}
use netprog_assignments.Group.Strtok.{atoi}
use netprog_assignments.Mail.{
  Client, Group, Server, find_client_by_id, find_client_by_name, find_group_by_name,
}

pub data QueryType : Type 0 where
  query_client : QueryType
  query_group : QueryType
  other_query : QueryType

pub record QueryRequest : Type 0 where
  pub src : ℤ
  pub query_type : QueryType
  pub content : CString

-- `none` is what no one wrote: the response is a local variable.
pub record QueryResponse : Type 0 where
  pub status : Option ℕ
  pub content : Option CString

abbrev pub is_all : CString → Bool
is_all s = str_eq s (codes "_ALL_")

abbrev pub error_response : QueryResponse
error_response = record { status = some 500; content = none }

abbrev pub ok_response : CString → QueryResponse
ok_response s = record { status = some 200; content = some s }

-- The response that ends a list keeps the status of the last one before it.
abbrev pub end_response : {A : Type 0} → List A → QueryResponse
end_response [] = record { status = none; content = some (codes "_END_") }
end_response (x ∷ xs) = ok_response (codes "_END_")

abbrev pub lines : {A : Type 0} → (A → CString) → List A → List QueryResponse
lines f [] = []
lines f (x ∷ xs) = ok_response (f x) ∷ lines f xs

abbrev has_error : Option ℕ → Bool
has_error none = false
has_error (some n) = n == 500

abbrev number : Option CString → Option ℤ
number none = none
number (some s) = some (atoi s)

-- get_cid and get_gid on the first response, for a number or -1; `none` where they read what
-- no one wrote.
abbrev pub resolve : Option (List QueryResponse) → Option ℤ
resolve none = none
resolve (some []) = none
resolve (some (r ∷ rs)) = if has_error r.status then some (negsuc 0) else number r.content

-- The lines that list_query prints; `none` when the responses end before `_END_`.
abbrev pub printed_line : Option CString → Option (List CString) → Option (List CString)
printed_line none rest = none
printed_line (some s) none = if str_eq s (codes "_END_") then some [] else none
printed_line (some s) (some ls) = if str_eq s (codes "_END_") then some [] else some (s ∷ ls)

abbrev pub printed_lines : List QueryResponse → Option (List CString)
printed_lines [] = none
printed_lines (r ∷ rs) = printed_line r.content (printed_lines rs)

module _ (decimal : ℤ → CString) where
  abbrev pub client_line : Client → CString
  client_line c = codes "name = " ++ c.name ++ codes " | cid = " ++ decimal c.cid

  abbrev pub group_line : Group → CString
  group_line g = codes "name = " ++ g.name ++ codes " | gid = " ++ decimal (pos g.gid)

  abbrev pub one_client : Option Client → QueryResponse
  one_client none = error_response
  one_client (some c) = ok_response (decimal c.cid)

  abbrev pub one_group : Option Group → QueryResponse
  one_group none = error_response
  one_group (some g) = ok_response (decimal (pos g.gid))

  -- The responses in the order in which they are sent.
  unfoldable pub responses : Server → QueryRequest → List QueryResponse
  unfolding find_client_by_name find_group_by_name
  responses s query = elim query.query_type [
    | query_client ↦
        if is_all query.content
        then lines client_line s.clients ++ (end_response s.clients ∷ [])
        else one_client (find_client_by_name query.content s.clients) ∷ []
    | query_group ↦
        if is_all query.content
        then lines group_line s.groups ++ (end_response s.groups ∷ [])
        else one_group (find_group_by_name query.content s.groups) ∷ []
    | other_query ↦ record { status = some 500; content = some (codes "Invalid request!") } ∷ []
  ]

  -- `none`: the name of a source that is not registered is printed, through a null pointer.
  unfoldable pub handle_query : Server → QueryRequest → Option (List QueryResponse)
  unfolding responses
  handle_query s query = elim (find_client_by_id query.src s.clients) [
    | none ↦ none
    | some src_client ↦ some (responses s query)
  ]

  -- The name is copied to an array of 128 bytes.
  unfoldable pub get_number : QueryType → Server → ℤ → CString → Option ℤ
  unfolding handle_query
  get_number kind s uid name =
      if ltb (length name) 128
      then resolve (handle_query s (record { src = uid; query_type = kind; content = name }))
      else none

  unfoldable pub get_cid : Server → ℤ → CString → Option ℤ
  unfolding get_number
  get_cid s uid client_name = get_number query_client s uid client_name

  unfoldable pub get_gid : Server → ℤ → CString → Option ℤ
  unfolding get_number
  get_gid s uid group_name = get_number query_group s uid group_name

  -- `pending` is what stands in the client's queue of responses already: it is read first.
  unfoldable pub list_query : QueryType → Server → ℤ → List QueryResponse → Option (List CString)
  unfolding handle_query
  list_query type s uid pending =
      elim (handle_query s (record { src = uid; query_type = type; content = codes "_ALL_" })) [
        | none ↦ none
        | some rs ↦ printed_lines (pending ++ rs)
      ]
