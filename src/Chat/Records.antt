-- ===== src/Chat/Records.antt =====
-- services/chat_requests.py: the table of requests after one was added and rewritten.
use ah_there_it_is.Base.{◌≡◌, refl, true, none, some, List, [], ◌∷◌, ◌++◌, find, replace, arith}
use ah_there_it_is.Text.{Text, text_eq}
use ah_there_it_is.Chat.Store.{ChatRecord, get, update, record_id}

pub find_added :
    (rs : List ChatRecord) (r : ChatRecord)
    → find record_id r.id rs ≡ none
    → find record_id r.id (rs ++ r ∷ []) ≡ some r
unfolding find
find_added [] r h = ground arith
find_added (x ∷ rs) r h = ground (arith, find_added rs r)

pub update_added :
    (rs : List ChatRecord) (r r' : ChatRecord)
    → r.id ≡ r'.id
    → find record_id r.id rs ≡ none
    → update r' (rs ++ r ∷ []) ≡ rs ++ r' ∷ []
unfolding find update replace
update_added [] r r' e h = ground arith
update_added (x ∷ rs) r r' e h = ground (arith, update_added rs r r' e)

pub get_added :
    (key : Text) (rs : List ChatRecord) (r : ChatRecord)
    → text_eq r.request_key key ≡ true
    → get key rs ≡ none
    → get key (rs ++ r ∷ []) ≡ some r
unfolding get
get_added key [] r e h = rw e refl
get_added key (x ∷ rs) r e h = ground (arith, get_added key rs r e)
