-- ===== src/Group/Receiving/Rounds.antt =====
-- What the receiving child makes of messages that come whole, and of a connection that is closed.
use netprog_assignments.Base.{
  ℕ, zero, suc, ◌≡◌, refl, ◌∙◌, ap, Bool, true, false, Option, none, some, List, [], ◌∷◌, ◌++◌,
  if◌then◌else◌, length, take, drop, map, replicate, CString, length-append, arith, NoNull, ◌<◌,
  ◌≤◌,
}
use netprog_assignments.Group.Files.{max_file_allowed}
use netprog_assignments.Group.Transfer.{
  FileReply, messages, file_chunk_len, send_chunks, receive_file, then_written, receive-send,
}
use netprog_assignments.Group.Receiving.{
  FileRound, closed, reply, Res, no_value, file_reply, Receiving, received, goes_on, over,
  connection, receive_rounds, receive_child, get_file_list,
}

abbrev pub whole : FileReply → FileRound
whole r = record { read = reply r; is_written = true }

append_assoc : (xs ys zs : List ℕ) → (xs ++ ys) ++ zs ≡ xs ++ (ys ++ zs)
append_assoc [] ys zs = refl
append_assoc (x ∷ xs) ys zs = ap (λ r. x ∷ r) (append_assoc xs ys zs)

received_after : List ℕ → Option (List ℕ) → Receiving
received_after file none = goes_on file
received_after file (some g) = received (file ++ g)

-- A message on top of what the others come to.
last_or_more :
    (is_last : Bool) (part file g : List ℕ) (rest : Option (List ℕ)) (next : Receiving)
    → (if is_last then some part else then_written part rest) ≡ some g
    → ((k : List ℕ) → rest ≡ some k → next ≡ received ((file ++ part) ++ k))
    → (if is_last then received (file ++ part) else next) ≡ received (file ++ g)
unfolding received_after
last_or_more true part file g rest next e h = ap (received_after file) e
last_or_more false part file g none next e h = ground arith
last_or_more false part file g (some k) next e h =
    h k refl ∙ ap received (append_assoc file part k) ∙ ap (received_after file) e

-- Messages that come whole are written as `receive_file` says.
receive_rounds-whole :
    (ms : List FileReply) (res : Res) (file g : List ℕ)
    → receive_file ms ≡ some g
    → receive_rounds (map whole ms) res file ≡ received (file ++ g)
unfolding receive_rounds receive_file
receive_rounds-whole [] res file g e = ground arith
receive_rounds-whole (m ∷ ms) res file g e =
    last_or_more m.is_last (take m.len m.bytes) file g (receive_file ms) _ e
      (λ k h. receive_rounds-whole ms (file_reply m) (file ++ take m.len m.bytes) k h)

-- A file of less than 500 bytes, none of them zero, that is sent by a message not yet marked as
-- the last, is received whole; behind it stands what the file of its name had there before.
pub sent-received :
    (file old : List ℕ) (r : FileReply)
    → NoNull file
    → length file < file_chunk_len
    → length r.bytes ≡ file_chunk_len
    → r.is_last ≡ false
    → (ms : List FileReply) × (send_chunks 2 file r ≡ messages ms)
      × (receive_child connection true old (map whole ms)
          ≡ received (file ++ drop (length file) old))
unfolding receive_child
sent-received file old r n h d l =
    let sent = receive-send file r n h d l in
    (sent.0, sent.1, ap (over old) (receive_rounds-whole (sent.0) no_value [] file (sent.2)))

-- After the connection is closed before the last message, the child writes the message that it
-- has again and again, and never ends.
pub closed-endless :
    (n : ℕ) (r : FileReply) (file : List ℕ)
    → r.is_last ≡ false
    → (g : List ℕ) × (receive_rounds
          (replicate n (record { read = closed; is_written = true }))
          (file_reply r)
          file
        ≡ goes_on g)
unfolding receive_rounds
closed-endless zero r file h = (file, refl)
closed-endless (suc n) r file h =
    let more = file ++ take r.len r.bytes in
    let rest = closed-endless n r more h in
    let again = replicate n (record { read = closed; is_written = true }) in
    (
      rest.0,
      ap (λ b. if b then received more else receive_rounds again (file_reply r) more) h ∙ rest.1,
    )

-- The names that getFileList gives are within the array.
pub get_file_list-within :
    (entries : List (Bool × CString)) (files names : List CString)
    → length files ≤ max_file_allowed
    → get_file_list entries files ≡ some names
    → length names ≤ max_file_allowed
unfolding get_file_list
get_file_list-within [] files names h e = ground arith
get_file_list-within ((true, name) ∷ entries) files names h e = ground (
  arith,
  get_file_list-within entries (files ++ (name ∷ [])) names,
  length-append files (name ∷ []),
)
get_file_list-within ((false, name) ∷ entries) files names h e =
    get_file_list-within entries files names h e
