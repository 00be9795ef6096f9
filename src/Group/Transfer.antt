-- ===== src/Group/Transfer.antt =====
-- The contents of a file on their way: the sending loop of requestFileReqHandler and the
-- receiving loop of requestFileCmdHandler, assignment-2/q3/utils.c. `read` gives a full chunk
-- while the file lasts; each message arrives whole.
use netprog_assignments.Base.{
  ℕ, zero, suc, ◌≡◌, ◌≤◌, ◌<◌, ◌∙◌, ap, refl, Bool, true, false, Option, none, some, List, [], ◌∷◌,
  ◌++◌, leb, if◌then◌else◌, length, take, drop, NoNull, before_null, before_null_whole, take_whole,
  drop_whole, append_nil, arith,
}

abbrev pub file_chunk_len : ℕ
file_chunk_len = 500

-- struct file_reply: `bytes` is the array.
pub record FileReply : Type 0 where
  pub is_last : Bool
  pub bytes : List ℕ
  pub len : ℕ

pub data Transfer : Type 0 where
  messages : List FileReply → Transfer
  overflow : Transfer  -- `strcpy` goes past the two arrays
  out_of_fuel : Transfer

abbrev pub overwrite : List ℕ → List ℕ → List ℕ
overwrite [] bytes = bytes
overwrite (x ∷ xs) [] = []
overwrite (x ∷ xs) (d ∷ bytes) = x ∷ overwrite xs bytes

abbrev pub also_send : FileReply → Transfer → Transfer
also_send reply (messages rest) = messages (reply ∷ rest)
also_send reply overflow = overflow
also_send reply out_of_fuel = out_of_fuel

-- One round, given what was read.
unfoldable pub send_buff : List ℕ → FileReply → (FileReply → Transfer) → Transfer
send_buff [] reply rest =
    messages (record { is_last = true; len = 0; bytes = overwrite (0 ∷ []) reply.bytes } ∷ [])
send_buff (c ∷ s) reply rest =
    let text = before_null (c ∷ s) in
    let next : FileReply = record reply {
      len = length (c ∷ s);
      bytes = overwrite (text ++ 0 ∷ []) reply.bytes;
    } in
    if leb file_chunk_len (length text) then overflow else also_send next (rest next)

-- `reply` is the message as it was left; before the first round it is not initialised.
unfoldable pub send_chunks : ℕ → List ℕ → FileReply → Transfer
unfolding send_buff
send_chunks zero file reply = out_of_fuel
send_chunks (suc fuel) file reply =
    send_buff (take file_chunk_len file) reply (λ r. send_chunks fuel (drop file_chunk_len file) r)

abbrev pub then_written : List ℕ → Option (List ℕ) → Option (List ℕ)
then_written part none = none
then_written part (some rest) = some (part ++ rest)

-- What is written up to the message that says it is the last; `none` waits for more.
unfoldable pub receive_file : List FileReply → Option (List ℕ)
receive_file [] = none
receive_file (res ∷ more) =
    let rest = receive_file more in
    if res.is_last
    then some (take res.len res.bytes)
    else then_written (take res.len res.bytes) rest

take-overwrite :
    (xs tail bytes : List ℕ)
    → length xs ≤ length bytes
    → take (length xs) (overwrite (xs ++ tail) bytes) ≡ xs
take-overwrite [] tail bytes h = refl
take-overwrite (x ∷ xs) tail [] h = elim h [ ]
take-overwrite (x ∷ xs) tail (d ∷ bytes) h =
    ap (λ r. x ∷ r) (take-overwrite xs tail bytes (omega arith))

-- A file that fits a message less one byte is sent in one message and a last one.
send_short :
    (c : ℕ) (s : List ℕ) (reply : FileReply)
    → NoNull (c ∷ s)
    → length (c ∷ s) < file_chunk_len
    → let next : FileReply = record reply {
      len = length (c ∷ s);
      bytes = overwrite ((c ∷ s) ++ 0 ∷ []) reply.bytes;
    } in
      send_chunks 2 (c ∷ s) reply
      ≡ messages
          (next ∷ record { is_last = true; len = 0; bytes = overwrite (0 ∷ []) next.bytes } ∷ [])
unfolding send_chunks
send_short c s reply n h =
    let file = c ∷ s in
    let fits : length file ≤ file_chunk_len = omega arith in
    let short : leb file_chunk_len (length file) ≡ false = ground arith in
    ap (λ b. send_buff b reply (λ r. send_chunks 1 (drop file_chunk_len file) r))
      (take_whole file_chunk_len file fits)
    ∙ ap (λ d. send_buff file reply (λ r. send_chunks 1 d r)) (drop_whole file_chunk_len file fits)
    ∙ rw (before_null_whole file n, short) refl

overflows :
    (buff : List ℕ) (reply : FileReply) (rest : FileReply → Transfer)
    → NoNull buff
    → length buff ≡ file_chunk_len
    → send_buff buff reply rest ≡ overflow
unfolding send_buff
overflows [] reply rest n h = ground arith
overflows (c ∷ s) reply rest n h =
    let full : leb file_chunk_len (length (c ∷ s)) ≡ true = ground arith in
    rw (before_null_whole (c ∷ s) n, full) refl

length-take : (n : ℕ) (xs : List ℕ) → n ≤ length xs → length (take n xs) ≡ n
length-take zero xs h = refl
length-take (suc n) [] h = elim h [ ]
length-take (suc n) (x ∷ xs) h = ap suc (length-take n xs (omega arith))

-- A file of less than 500 bytes, none of them zero, arrives as it was, when the first message
-- happens not to be marked as the last.
pub receive-send :
    (file : List ℕ) (reply : FileReply)
    → NoNull file
    → length file < file_chunk_len
    → length reply.bytes ≡ file_chunk_len
    → reply.is_last ≡ false
    → (ms : List FileReply) × (send_chunks 2 file reply ≡ messages ms)
      × (receive_file ms ≡ some file)
unfolding send_chunks receive_file
receive-send [] reply n h d l = (_, refl, refl)
receive-send (c ∷ s) reply n h d l = (
  _,
  send_short c s reply n h,
  rw (l) (
      ap (λ r. some (r ++ [])) (take-overwrite (c ∷ s) (0 ∷ []) reply.bytes (omega (arith, d)))
      ∙ ap some (append_nil (c ∷ s))),
)

-- A file that begins with 500 bytes that are not zero overruns the buffers of the sender: the
-- chunk has no room for the null that `strcpy` looks for.
pub full_chunk-overflow :
    (fuel : ℕ) (file : List ℕ) (reply : FileReply)
    → NoNull (take file_chunk_len file)
    → file_chunk_len ≤ length file
    → send_chunks (suc fuel) file reply ≡ overflow
unfolding send_chunks
full_chunk-overflow fuel file reply n h =
    overflows (take file_chunk_len file) reply _ n (length-take file_chunk_len file h)
