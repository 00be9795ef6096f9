-- ===== src/Group/Program/Sending.antt =====
-- The fuel of the sending loop of requestFileReqHandler, and when it goes past its arrays.
use netprog_assignments.Base.{
  before_null, ℕ, zero, suc, ◌+◌, ◌-◌, ◌/◌, ◌≡◌, ◌≤◌, ◌<◌, refl, Bool, true, false, Option, none,
  some, List, [], ◌∷◌, length, take, drop, leb, arith, Bool-cases, inl, inr, CString,
}
use netprog_assignments.Group.Transfer.{
  FileReply, Transfer, messages, overflow, out_of_fuel, send_chunks, send_buff, also_send,
  file_chunk_len,
}
use netprog_assignments.Group.Files.{is_among}
use netprog_assignments.Group.Program.Turns.{
  Outside, FileAnswered, not_held, not_opened, no_socket, not_connected, sending, send_content,
  request_file_req,
}

-- A message for each chunk, the last of them short, and the message that says so.
abbrev pub Sends : List ℕ → Transfer → Type 0
Sends file (messages ms) = length ms ≡ (length file + 499) / 500 + 1
Sends file overflow = file_chunk_len ≤ length file
Sends file out_of_fuel = ⊥

length-drop : (n : ℕ) (xs : List ℕ) → length (drop n xs) ≡ length xs - n
length-drop zero xs = omega arith
length-drop (suc n) [] = omega arith
length-drop (suc n) (x ∷ xs) = omega (arith, length-drop n xs)

length-take-le : (n : ℕ) (xs : List ℕ) → length (take n xs) ≤ length xs
length-take-le zero xs = omega arith
length-take-le (suc n) [] = omega arith
length-take-le (suc n) (x ∷ xs) = omega (arith, length-take-le n xs)

length-before_null-le : (xs : List ℕ) → length (before_null xs) ≤ length xs
length-before_null-le [] = omega arith
length-before_null-le (x ∷ xs) = ground (arith, length-before_null-le xs)

Sends-also :
    (file rest : List ℕ) (r : FileReply) (t : Transfer)
    → 0 < length file
    → length rest ≡ length file - 500
    → Sends rest t
    → Sends file (also_send r t)
Sends-also file rest r (messages ms) p d h = omega arith
Sends-also file rest r overflow p d h = omega arith
Sends-also file rest r out_of_fuel p d h = h

send_buff-Sends :
    (file buff : List ℕ) (reply : FileReply) (rest : FileReply → Transfer)
    → length buff ≤ length file
    → (length buff ≡ 0 → length file ≡ 0)
    → (0 < length file → (r : FileReply) → Sends (drop file_chunk_len file) (rest r))
    → Sends file (send_buff buff reply rest)
unfolding send_buff
send_buff-Sends file [] reply rest l z h = omega (arith, z refl)
send_buff-Sends file (c ∷ s) reply rest l z h =
    elim (Bool-cases (leb file_chunk_len (length (before_null (c ∷ s))))) [
      | inl e ↦ rw e (ground (arith, length-before_null-le (c ∷ s)))
      | inr e ↦ rw e (
          Sends-also file (drop file_chunk_len file) _ _ (omega arith)
            (length-drop file_chunk_len file) (h (omega arith) _))
    ]

take_some : (file : List ℕ) → length (take file_chunk_len file) ≡ 0 → length file ≡ 0
take_some [] h = refl
take_some (c ∷ s) h = absurd (omega arith)

send_chunks-Sends :
    (fuel : ℕ) (file : List ℕ) (reply : FileReply)
    → (length file + 499) / 500 < fuel
    → Sends file (send_chunks fuel file reply)
unfolding send_chunks
send_chunks-Sends zero file reply h = absurd (omega arith)
send_chunks-Sends (suc fuel) file reply h =
    send_buff-Sends file (take file_chunk_len file) reply _ (length-take-le file_chunk_len file)
      (take_some file)
      (λ p r.
        send_chunks-Sends fuel (drop file_chunk_len file) r
          (omega (arith, length-drop file_chunk_len file)))

-- The answer to a request for a file ends: not held or not reached, or with the messages that the
-- file needs, or past the arrays, when it has 500 bytes or more.
abbrev pub Answers : Outside → CString → FileAnswered → Type 0
Answers o name (sending t) = (file : List ℕ) × (o.content name ≡ some file) × Sends file t
Answers o name not_held = Unit
Answers o name not_opened = o.content name ≡ none
Answers o name no_socket = o.socket ≡ false
Answers o name not_connected = o.connects ≡ false

content-Answers :
    (o : Outside) (name : CString) (socket connects : Bool) (c : Option (List ℕ))
    → o.content name ≡ c
    → o.socket ≡ socket
    → o.connects ≡ connects
    → Answers o name (send_content o c)
unfolding send_content
content-Answers o name socket connects none e f g = e
content-Answers o name false connects (some file) e f g = rw f refl
content-Answers o name true false (some file) e f g = rw (f, g) refl
content-Answers o name true true (some file) e f g =
    rw (f, g) (file, e, send_chunks-Sends _ file o.stack (omega arith))

pub request_file_req-Answers :
    (o : Outside) (name : CString) (files : List CString)
    → Answers o name (request_file_req o name files)
unfolding request_file_req
request_file_req-Answers o name files = elim (Bool-cases (is_among name files)) [
  | inl e ↦ rw e (content-Answers o name o.socket o.connects (o.content name) refl refl refl)
  | inr e ↦ rw e tt
]
