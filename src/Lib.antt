-- ===== src/Lib.antt =====
-- SecureDrop: a model of the Python applications by which sources submit messages and documents and
-- journalists read and answer them, and what holds of it. Paths are from the root of the repository.
--
-- The parts and their modules:
--   Base, Errors, Encoding   shared helpers; the exceptions; base64.b32encode, base64.b32decode and
--                            binascii.unhexlify of the standard library, written out
--   Models                   the tables of securedrop/models.py, a record for a row, a list for a table
--   TwoFactor                securedrop/two_factor.py: HOTP, TOTP, random_base32, format_secret
--   Accounts                 securedrop/models.py, class Journalist: names, passphrases, second factors
--     Accounts.Creation      Journalist.__init__
--     Accounts.Secrets       securedrop/journalist_app/utils.py, validate_hotp_secret
--     Accounts.Login         Journalist.throttle_login and Journalist.login on the whole database
--     Accounts.SignIn        validate_user (journalist_app/utils.py), get_token (journalist_app/api.py)
--   Deletion                 Journalist.get_deleted and Journalist.delete; delete_user of
--                            securedrop/journalist_app/admin.py
--   Store                    names of stored files: securedrop/store.py, and Source.journalist_filename,
--                            Source.collection, Submission.is_file, Submission.is_message of models.py
--   Passphrases              securedrop/passphrases.py
--   Sources                  securedrop/source_user.py
--     Sources.Session        securedrop/source_app/session_manager.py
--   Config                   class InstanceConfig of models.py; update_org_name of admin.py
--   Items                    mark_seen, delete_file_object, bulk_delete, stars and col_delete of
--                            journalist_app/utils.py; Storage.path and move_to_shredder of store.py
--     Items.Collections      delete_source_files, delete_collection, purge_deleted_sources
--   Sessions                 securedrop/journalist_app/sessions.py: open_session, save_session,
--                            logout_user
--   Submit                   submit, delete and batch_delete of securedrop/source_app/main.py;
--                            codename_detected of its utils.py
--   Signup                   generate and create of source_app/main.py; fit_codenames_into_cookie of
--                            its utils.py
--     Signup.Login           login of source_app/main.py, with LoginForm; Source.fingerprint
--   Admin                    add_user, edit_user, new_password and the second factors of admin.py;
--                            NewUserForm of forms.py; pending passwords of journalist_app/utils.py
--   Account                  securedrop/journalist_app/account.py
--   Replies                  replies sent to journalist_app/api.py; save_pre_encrypted_reply of store.py
--   Locales                  securedrop/i18n.py
--   TempFile                 securedrop/secure_tempfile.py
--   Worker                   securedrop/worker.py
--   Rm                       securedrop/rm.py; clear_shredder of store.py
--
-- How the parts interact: a login looks up a row of the journalists' table, records an attempt, checks
-- the token (TwoFactor) and the passphrase (Accounts), and writes the row back at each commit. The
-- account named "deleted" gets a generated passphrase (Passphrases) and takes over what a
-- deleted account had. A source's passphrase gives its file system id by scrypt, under which the
-- database and the store know it.
--
-- Conventions. A text is a list of code points, times are whole seconds. A method that may raise
-- returns a Result; one that also changes the database takes it and returns it, beside an error
-- too, as it was committed by then. Random draws, new keys and the time are arguments. The packages
-- cryptography, argon2 and scrypt, and redwood, itsdangerous and babel, are records of functions
-- (OtpLibrary, Hasher, SourceSetup, Signer, Babel, GpgKeys) that the definitions take; where a
-- theorem needs their documented behaviour, it says so in a hypothesis. Loops are recursions on
-- lists; the search for a designation recurs on the 50 attempts that the source allows, and decimal
-- numerals on a number above the number of digits.
--
-- Not modelled: pages, translations, logging, the JSON forms, the files themselves and their
-- encryption, the web servers and the processes around them.
pub mod Base
pub mod Errors
pub mod Encoding
pub mod TwoFactor
pub mod Models
pub mod Accounts
pub mod Deletion
pub mod Store
pub mod Passphrases
pub mod Sources
pub mod Config
pub mod Items
pub mod Sessions
pub mod Submit
pub mod TempFile
pub mod Worker
pub mod Admin
pub mod Account
pub mod Rm
pub mod Signup
pub mod Replies
pub mod Locales
