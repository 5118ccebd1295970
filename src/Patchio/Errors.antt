-- ===== src/Patchio/Errors.antt =====
-- The errors that internal/patchio returns, one constructor for each message.
pub data PatchError : Type 0 where
  size_limit : PatchError
  absolute_path current_path parent_path git_path : PatchError
  empty_hunk_line incomplete_hunk hunk_exceeds : PatchError
  bad_hunk_header bad_hunk_range bad_hunk_position bad_hunk_count : PatchError
  ambiguous_header : PatchError
  read_failed write_failed : PatchError
