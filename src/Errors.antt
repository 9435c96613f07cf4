-- ===== src/Errors.antt =====
-- The exceptions that signing in and account changes raise (securedrop/models.py,
-- securedrop/two_factor.py, and the built-in ones that those let through).
pub data Error : Type 0 where
  invalid_username : Error
  login_throttled : Error
  wrong_password : Error
  password_error : Error
  invalid_password_length : Error
  non_diceware_password : Error
  invalid_name_length : Error
  otp_secret_invalid : Error
  otp_token_invalid : Error
  -- `UnicodeEncodeError`, `ValueError`, `RuntimeError` and `binascii.Error`.
  unicode_encode_error : Error
  value_error : Error
  runtime_error : Error
  binascii_error : Error
  -- `IntegrityError` of the database, on a user name that is taken.
  integrity_error : Error
  -- `AttributeError` of a missing row.
  attribute_error : Error
