-- ===== src/Common/Outcome.antt =====
-- The values of `errno` that the code tells apart.

pub data Errno : Type 0 where
  e_inval e_msgsize e_toobig e_proto e_timedout e_notsup e_nosys e_overflow e_nodev e_io : Errno
  e_acces e_noent e_perm e_nomem e_intr e_again e_pipe e_nospc : Errno
