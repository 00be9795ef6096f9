-- ===== src/Shell/Descriptors/Closing.antt =====
-- Each command has the two ends that it needs and no other, and no one else can write to the pipe
-- that it reads.
use netprog_assignments.Shell.Command.{Command}
