-- ===== src/Cluster/Client/Tests.antt =====
-- The theorem on the requests at concrete inputs, and runs of the child.
use netprog_assignments.Base.{
  ℕ, ◌≡◌, refl, Bool, Option, none, some, List, [], ◌∷◌, if◌then◌else◌, CString, codes, str_eq,
  length, ltb,
}
use netprog_assignments.Cluster.Client.{
  Ran, ran, received, no_read, waits, ended, crashed, request, request_size, serve_requests,
}
use netprog_assignments.Cluster.Client.Requests.{obeyed}

-- A machine is its working directory; there is one other.
abbrev chdir : CString → CString → Option CString
chdir w path = if str_eq path (codes "/tmp") then some path else none

-- `pwd` gives the directory, and any other command its input.
abbrev popen : CString → CString → CString → Ran CString
popen w cmd input = if str_eq cmd (codes "pwd") then ran w w else ran w input

abbrev home : CString
home = codes "/"

abbrev commands : List (CString × CString)
commands = (codes " cd /tmp", []) ∷ (codes "pwd", codes "x") ∷ (codes "cat", codes "ab") ∷ []

obeyed_run :
    obeyed chdir popen home commands ≡ waits (codes "/tmp") ([] ∷ codes "/tmp" ∷ codes "ab" ∷ [])
unfolding str_eq obeyed
obeyed_run = refl

-- A directory that is not there is an answer, and a failed read ends the child.
unknown_run :
    serve_requests chdir popen home (received (request (codes "cd /x") []) ∷ no_read ∷ [])
    ≡ ended (codes "Error occurred while changing path to /x" ∷ [])
unfolding serve_requests str_eq
unknown_run = refl

-- A request without a null: what is behind it is not initialised.
unfinished_run : serve_requests chdir popen home (received (codes "pwd") ∷ []) ≡ crashed []
unfolding serve_requests
unfinished_run = refl

-- A request that fills the array leaves no room for the null behind it.
full_run :
    (s : List ℕ)
    → ltb (length s) request_size ≡ Bool.false
    → serve_requests chdir popen home (received s ∷ []) ≡ crashed []
unfolding serve_requests
full_run s h = rw h refl
