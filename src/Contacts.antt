-- ===== src/Contacts.antt =====
-- The address book of backend/src/controllers/contactsController.js: contacts, and their import from CSV.
pub mod Csv
pub mod Quoting
pub mod Import
pub mod Unique
mod Examples
use cross_border_payment_app.Base.{
  ℕ, Bool, true, false, ◌&&◌, not, Option, none, some, List, ◌∷◌, ◌==◌, if◌then◌else◌, select_where,
  update_where, any, Reply, same_text, json, rejected,
}

-- A row of contacts. Texts are lists of the codes of their characters.
pub record Contact : Type 0 where
  pub id : ℕ
  pub user_id : ℕ
  pub name : List ℕ
  pub wallet_address : List ℕ
  pub notes : Option (List ℕ)
  pub memo_required : Bool
  pub default_memo : Option (List ℕ)
  pub tags : List ℕ

abbrev pub Table : Type 0
Table = List Contact

-- The UNIQUE (user_id, wallet_address) of the table
abbrev pub is_for : ℕ → List ℕ → Contact → Bool
is_for user wallet c = c.user_id == user && same_text c.wallet_address wallet

abbrev pub is_of : ℕ → Contact → Bool
is_of user c = c.user_id == user

abbrev pub has_tag : Option ℕ → Contact → Bool
has_tag none c = true
has_tag (some t) c = any (λ u. u == t) c.tags

-- `getContacts`, up to the order by name
pub get_contacts : ℕ → Option ℕ → Table → Reply Table
get_contacts user tag t = json (select_where (λ c. is_of user c && has_tag tag c) t)

-- EXCLUDED, on the row that is there
abbrev pub merged : Contact → Contact → Contact
merged new old = record new {
  id = old.id;
  user_id = old.user_id;
  wallet_address = old.wallet_address;
}

-- `addContact`: whether the row is new (201) or was updated (200)
pub add_contact : Contact → Table → Bool × Table
add_contact c t =
    if any (is_for c.user_id c.wallet_address) t
    then (false, update_where (is_for c.user_id c.wallet_address) (merged c) t)
    else (true, c ∷ t)

abbrev pub owned : ℕ → ℕ → Contact → Bool
owned i user c = c.id == i && c.user_id == user

-- `deleteContact`
pub delete_contact : ℕ → ℕ → Table → Reply (Unit {0}) × Table
delete_contact user i t =
    if any (owned i user) t
    then (json tt, select_where (λ c. not (owned i user c)) t)
    else (rejected 404 "", t)
