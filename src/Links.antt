-- ===== src/Links.antt =====
-- libs/list.h: circular doubly linked lists. An entry is an address, and the `prev` and `next`
-- fields of all entries are two stores.
pub mod Ring
use lab.Base.{ℕ, Bool, ◌==◌, if◌then◌else◌, update}

pub record Links : Type 0 where
  pub prev : ℕ → ℕ
  pub next : ℕ → ℕ

-- elm->next = v, elm->prev = v
abbrev pub set_next : Links → ℕ → ℕ → Links
set_next s elm v = record s { next = update s.next elm v }

abbrev pub set_prev : Links → ℕ → ℕ → Links
set_prev s elm v = record s { prev = update s.prev elm v }

unfoldable pub list_init : ℕ → Links → Links
list_init elm s = set_prev (set_next s elm elm) elm elm

-- `__list_add`
unfoldable pub list_add_between : ℕ → ℕ → ℕ → Links → Links
list_add_between elm prev next s =
    set_prev (set_next (set_next (set_prev s next elm) prev elm) elm next) elm prev

-- `__list_del`
unfoldable pub list_del_between : ℕ → ℕ → Links → Links
list_del_between prev next s = set_prev (set_next s prev next) next prev

unfoldable pub list_add_after : ℕ → ℕ → Links → Links
unfolding list_add_between
list_add_after listelm elm s = list_add_between elm listelm (s.next listelm) s

unfoldable pub list_add : ℕ → ℕ → Links → Links
unfolding list_add_after
list_add listelm elm s = list_add_after listelm elm s

unfoldable pub list_add_before : ℕ → ℕ → Links → Links
unfolding list_add_between
list_add_before listelm elm s = list_add_between elm (s.prev listelm) listelm s

unfoldable pub list_del : ℕ → Links → Links
unfolding list_del_between
list_del listelm s = list_del_between (s.prev listelm) (s.next listelm) s

unfoldable pub list_del_init : ℕ → Links → Links
unfolding list_del list_init
list_del_init listelm s = list_init listelm (list_del listelm s)

unfoldable pub list_empty : ℕ → Links → Bool
list_empty list s = s.next list == list

unfoldable pub list_next : ℕ → Links → ℕ
list_next listelm s = s.next listelm

unfoldable pub list_prev : ℕ → Links → ℕ
list_prev listelm s = s.prev listelm
