-- ===== src/Lib.antt =====
-- esif_client_server: the server of the electronic student information form, and the client that fills
-- in, saves, shows and sends the forms.
--
-- A client connects, sends the server's magic, the code of its college and the digest of the college's
-- password, and then sends forms and images. The server keeps each form as a file and as a record of
-- the college's registration database. Tools on the server keep the database of the passwords.
--
-- The modules and the code that they model:
--   Support       server/support.c: readn, writen, my_read, readline, each as a loop over a socket
--   Password      server/password.c, password.h: the password records, pass_insertdb and the others;
--                 in Tools the loops of server/dispass.c, enapass.c, delpass.c, inspass.c, getpass.c
--                 and genpass.c, and in Showing what server/showpassdb.c prints
--   Regdb         server/regdb.c, regdb.h: the registration records; in Showing and Raw what
--                 server/showregdb.c prints of a record
--   Session       server/eduserver.c, manage_client: its state and the steps its stages share
--   Session.Login      the stages up to the accepted password, and lookup_user
--   Session.Institute  the directories and the database of the college
--   Session.Image      accept_binary, and the branch for BINARY
--   Session.Upload     the branch for FILENAME, and the loop over the lines of a form
--   Session.Commands   the loop over the client's commands
--   Session.Handler    manage_client as a whole
--   Form          project2/src/myfuncs.c, the client's checks of a form: in Text those of one entry and
--                 construct_filename, in Pairs paircheck and its table, in Subjects
--                 verify_subject_codes_by_group and verify_subject_codes; in Entries, Checks and
--                 Verify verify_form as a whole, in File the lines that it writes
--   Client        project2/src/myfuncs.c, the client's side of the protocol: its state, and how a routine
--                 ends; in Authenticate, Apply, Photo and Forms authenticate, apply_form, send_photo
--                 and apply_forms; in Header how the header of a form's file is read and printed again
--   Editor        project2/src/editor.c: load_student_info; in Rows and Listing the list of the saved
--                 forms, as it is loaded, and its buttons that edit and delete a form
--   Window        project2/src/callbacks.c, the form's window: its attributes and the calls on it; in
--                 Handlers what a changed text causes, in Entries which entry has which handler, in
--                 Ignored the boxes that switch entries off; in Query the window that asks for the
--                 session and the code of the college, in myfuncs.c
--   Process       server/eduserver.c: main, the signals, and the threads that doit ends
-- What the code only calls is an interface with laws, and an instance that shows them to hold:
--   Socket        read(2) and write(2), and a socket that plays a script
--   Database      the calls of Berkeley DB, and a database in memory
--   Window.Toolkit   the signals of GTK's entries when their text is replaced
-- The clock, the C library's text for a time, the digest and what the file system allows are arguments.
--
-- State is passed explicitly. A part of the handler ends in one of four ways: it goes on, it goes to
-- free_resource, its behaviour is undefined (a write past a buffer), or the fuel of the model is spent.
-- A loop on a socket has as fuel the bytes it can still take, the interruptions that the socket still
-- has, and one; that a theorem says what such a loop returns includes that the fuel suffices.
-- The loop over a form has as fuel the bytes that the peer will still send, and one.
--
-- The client's routines end by going on, by returning a code, by undefined behaviour, or by the end of
-- the fuel, and the loop over a file's lines has as fuel the file's bytes and one. What load_student_info
-- does is the sequence of its calls on the widgets. The server's process takes one event after another.
-- A text that is typed into the form's or the query window starts a handler, and a text that a handler
-- sets starts another one; the model allows three such calls in one another, and they are shown to be
-- enough.
--
-- Not modelled: the tools' cursors over the databases, the making of the client's windows, most
-- of their buttons, their dialogs, the connection's setup, a signal that
-- comes before the server's handlers are installed, the registration databases that threads hold open,
-- and a reload of the passwords while a thread reads them. What is printed on the terminal is left out.
pub mod Common
pub mod Socket
pub mod Support
pub mod Database
pub mod Password
pub mod Regdb
pub mod Session
pub mod Form
pub mod Client
pub mod Editor
pub mod Window
pub mod Process
