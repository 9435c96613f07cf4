-- ===== src/Admin/Reset.antt =====
-- A second factor that was reset can be used (securedrop/journalist_app/admin.py, `reset_two_factor_totp` and
-- `new_user_two_factor_totp`; the same of account.py).
use ab.Base.Text.{Text}
