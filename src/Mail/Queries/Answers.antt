-- ===== src/Mail/Queries/Answers.antt =====
-- What the client programs learn from the answers to their queries.
use netprog_assignments.Base.{
  ◌≡◌, ◌<◌, refl, false, Option, none, some, List, [], ◌∷◌, ◌++◌, length, ℤ, pos, negsuc, CString,
  codes, str_eq, map, ap, lt→ltb,
}
use netprog_assignments.Group.Strtok.{atoi}
use netprog_assignments.Mail.{Client, Group, Server, find_client_by_id, find_group_by_name}
use netprog_assignments.Mail.Queries.{
  query_client, query_group, one_group, client_line, group_line, lines, responses, handle_query,
  QueryResponse, resolve, get_number, get_gid, end_response, printed_lines, list_query,
}

-- The number of the thing that is found, or -1.
abbrev pub gid_or_missing : Option Group → ℤ
gid_or_missing none = negsuc 0
gid_or_missing (some g) = pos g.gid

-- atoi reads the number back that sprintf wrote.
abbrev pub IsReadable : (ℤ → CString) → ℤ → Type 0
IsReadable decimal n = atoi (decimal n) ≡ n

module _ (decimal : ℤ → CString) where
  group_answer :
      (o : Option Group)
      → IsReadable decimal (gid_or_missing o)
      → resolve (some (one_group decimal o ∷ [])) ≡ some (gid_or_missing o)
  group_answer none r = refl
  group_answer (some g) r = ap some r

  -- For a registered client get_gid gives the identifier of the first group of the name, or -1
  -- when there is none, for names of fewer than 128 bytes other than `_ALL_`.
  pub get_gid-finds :
      (s : Server) (uid : ℤ) (src_client : Client) (name : CString)
      → find_client_by_id uid s.clients ≡ some src_client
      → length name < 128
      → str_eq name (codes "_ALL_") ≡ false
      → IsReadable decimal (gid_or_missing (find_group_by_name name s.groups))
      → get_gid decimal s uid name ≡ some (gid_or_missing (find_group_by_name name s.groups))
  unfolding get_gid get_number handle_query responses
  get_gid-finds s uid src_client name h l e r =
      rw (lt→ltb (length name) 128 l, handle_query, h, responses, e)
        (group_answer (find_group_by_name name s.groups) r)

printed_end : {A : Type 0} (ends : List A) → printed_lines (end_response ends ∷ []) ≡ some []
unfolding str_eq
printed_end [] = refl
printed_end (x ∷ xs) = refl

printed_all :
    {A B : Type 0} (f : A → CString) (ends : List B) (xs : List A)
    → ((x : A) → str_eq (f x) (codes "_END_") ≡ false)
    → printed_lines (lines f xs ++ (end_response ends ∷ [])) ≡ some (map f xs)
printed_all f ends [] h = printed_end ends
printed_all f ends (x ∷ xs) h = rw (printed_all f ends xs h, h x)

-- The texts of responses that are left in the queue, none of them `_END_`.
abbrev pub AreTexts : List QueryResponse → List CString → Type 0
AreTexts [] [] = Unit
AreTexts [] (t ∷ ts) = ⊥
AreTexts (r ∷ rs) [] = ⊥
AreTexts (r ∷ rs) (t ∷ ts) =
    (r.content ≡ some t) × (str_eq t (codes "_END_") ≡ false) × AreTexts rs ts

printed_before :
    (pending rs : List QueryResponse) (texts ls : List CString)
    → AreTexts pending texts
    → printed_lines rs ≡ some ls
    → printed_lines (pending ++ rs) ≡ some (texts ++ ls)
printed_before [] rs [] ls h e = e
printed_before [] rs (t ∷ ts) ls h e = elim h [ ]
printed_before (r ∷ pending) rs [] ls h e = elim h [ ]
printed_before (r ∷ pending) rs (t ∷ ts) ls (k, n, h) e =
    rw (k, printed_before pending rs ts ls h e, n) refl

-- For a registered client whose queue holds no response that ends a list, list_query ends; it
-- prints the responses that the queue holds, and then a line for every group, or every client, in
-- the order of the server's tables.
pub list_query-prints :
    (decimal : ℤ → CString) (s : Server) (uid : ℤ) (src_client : Client)
    (pending : List QueryResponse) (texts : List CString)
    → find_client_by_id uid s.clients ≡ some src_client
    → AreTexts pending texts
    → (list_query decimal query_group s uid pending
        ≡ some (texts ++ map (group_line decimal) s.groups))
      × (list_query decimal query_client s uid pending
          ≡ some (texts ++ map (client_line decimal) s.clients))
unfolding list_query handle_query responses str_eq
list_query-prints decimal s uid src_client pending texts h a = (
  rw (list_query, h)
      (printed_before pending _ texts _ a
        (printed_all (group_line decimal) s.groups s.groups (λ g. refl))),
  rw (list_query, h)
      (printed_before pending _ texts _ a
        (printed_all (client_line decimal) s.clients s.clients (λ c. refl))),
)
