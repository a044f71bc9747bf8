-- ===== src/Book/Ids.antt =====
-- The numbers behind OrderIDs and ExecIDs, order_id_of and exec_id_of of internal/exchange/book.go.
use fix_session_lab.Base.{ℕ, ◌≡◌}
use fix_session_lab.Base.Text.{codes, pad6-injective, append-cancel_left}
use fix_session_lab.Book.{order_id_of, exec_id_of}

pub order_id_of-injective : (m n : ℕ) → order_id_of m ≡ order_id_of n → m ≡ n
unfolding order_id_of
order_id_of-injective m n e = pad6-injective m n (append-cancel_left (codes "ORD") _ _ e)

pub exec_id_of-injective : (m n : ℕ) → exec_id_of m ≡ exec_id_of n → m ≡ n
unfolding exec_id_of
exec_id_of-injective m n e = pad6-injective m n (append-cancel_left (codes "EXE") _ _ e)
