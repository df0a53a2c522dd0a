-- ===== src/Form.antt =====
-- project2/src/myfuncs.c: what the client checks of a form before it is sent. What a file of codes
-- holds is a list of numbers; `lookup_widget` and the messages on the screen are left out, and which
-- of them is shown is the verdict.
pub mod Text
pub mod Pairs
pub mod Subjects
pub mod Entries
pub mod Checks
pub mod File
pub mod Verify
pub mod Name
pub mod Saved
pub mod Right
pub mod Example
mod Tests
