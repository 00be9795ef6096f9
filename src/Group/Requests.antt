-- ===== src/Group/Requests.antt =====
-- Requests for files and what a node keeps, assignment-2/q3/utils.c and group_comm.c.
use netprog_assignments.Base.{
  suc, ◌≡◌, ◌≤◌, ◌<◌, refl, Bool, true, false, not, ◌&&◌, List, [], ◌∷◌, ◌++◌, ◌==◌, if◌then◌else◌,
  CString, str_eq_refl, length, length-append, arith, Bool-cases, if_either, inl, inr,
}
use netprog_assignments.Group.Groups.{MulticastGroup}
use netprog_assignments.Group.Files.{
  is_among, max_file_allowed, Requested, success, exists_already, receive_error, max_reached,
  request_file_cmd, FileListMulticast, forward, Node, files_after, get_file, handle_files,
}

among_append :
    (name : CString) (xs ys : List CString)
    → is_among name xs ≡ true
    → is_among name (xs ++ ys) ≡ true
unfolding is_among
among_append name [] ys h = ground arith
among_append name (x ∷ xs) ys h = ground (arith, among_append name xs ys)

among_end : (name : CString) (xs : List CString) → is_among name (xs ++ name ∷ []) ≡ true
unfolding is_among
among_end name [] = ground (arith, str_eq_refl name)
among_end name (x ∷ xs) = ground (arith, among_end name xs)

-- What a request for a file did to the names.
abbrev pub Requests : Bool → Bool → CString → List CString → Requested → Type 0
Requests sockets child name files (success more) =
    (is_among name files ≡ false)
    × (is_among name more ≡ true)
    × (length more ≡ suc (length files))
    × (length more ≤ max_file_allowed)
Requests sockets child name files exists_already = is_among name files ≡ true
Requests sockets child name files receive_error = (sockets && child) ≡ false
Requests sockets child name files max_reached = length files ≡ max_file_allowed

new_request :
    (sockets child : Bool) (name : CString) (files : List CString)
    → is_among name files ≡ false
    → length files < max_file_allowed
    → Requests sockets child name files (
        if not sockets
        then receive_error
        else if child
        then success (files ++ name ∷ [])
        else receive_error)
new_request false child name files e h = refl
new_request true false name files e h = refl
new_request true true name files e h = (
  e,
  among_end name files,
  omega (arith, length-append files (name ∷ [])),
  omega (arith, length-append files (name ∷ [])),
)

-- request-file while there is room for the names of at most 30 files, on each of its results: a
-- new file is among the names afterwards, which grow by one and stay within 30.
pub request_file_cmd-Requests :
    (sockets child : Bool) (name : CString) (files : List CString)
    → length files ≤ max_file_allowed
    → Requests sockets child name files (request_file_cmd sockets child name files)
unfolding request_file_cmd
request_file_cmd-Requests sockets child name files h =
    let P = Requests sockets child name files in
    elim (Bool-cases (is_among name files)) [
      | inl e ↦ rw e e
      | inr e ↦ rw e (elim (Bool-cases (length files == max_file_allowed)) [
        | inl f ↦ rw f (ground arith)
        | inr f ↦ rw f (new_request sockets child name files e (ground arith))
      ])
    ]

-- One round over a list takes no file away and keeps within 30.
abbrev Keeps : List CString → List CString → Type 0
Keeps files more =
    (length more ≤ max_file_allowed)
    × ((q : CString) → is_among q files ≡ true → is_among q more ≡ true)

Keeps-after :
    (sockets child : Bool) (name : CString) (files : List CString)
    → length files ≤ max_file_allowed
    → Keeps files files
    → Keeps files (files_after files (request_file_cmd sockets child name files))
unfolding request_file_cmd
Keeps-after sockets child name files h same =
    let P = λ (r : Requested). Keeps files (files_after files r) in
    if_either P (is_among name files) same (elim (Bool-cases (length files == max_file_allowed)) [
      | inl e ↦ rw e same
      | inr e ↦ rw e (
          if_either P (not sockets) same (
            if_either P child
              (
                ground (arith, length-append files (name ∷ [])),
                λ q k. among_append q files (name ∷ []) k,
              )
              same))
    ])

get_file-Keeps :
    (sockets child : Bool) (name : CString) (files : List CString)
    → length files ≤ max_file_allowed
    → Keeps files (get_file sockets child name files)
unfolding get_file request_file_cmd
get_file-Keeps sockets child name files h =
    let P = Keeps files in
    let same : P files = (h, λ q k. k) in
    if_either P (is_among name files) same (Keeps-after sockets child name files h same)

-- Passing a list of files, whatever the requests come to, loses no name and keeps the names
-- within the array of 30.
pub handle_files-Keeps :
    (sockets child : CString → Bool) (list : FileListMulticast) (groups : List MulticastGroup)
    (files : List CString) (node : Node)
    → length node.file_names ≤ max_file_allowed
    → Keeps node.file_names (handle_files sockets child list groups files node).file_names
unfolding handle_files
handle_files-Keeps sockets child list groups [] node h = (h, λ q k. k)
handle_files-Keeps sockets child list groups (file ∷ files) node h =
    let (a, b) = get_file-Keeps (sockets file) (child file) file node.file_names h in
    let f = forward list node.msg groups in
    let (c, d) =
      handle_files-Keeps sockets child list groups files
        (record {
          file_names = get_file (sockets file) (child file) file node.file_names;
          msg = f.parsed_msg;
          sent = node.sent ++ f.sent;
        })
        a in
    (c, λ q k. d q (b q k))
