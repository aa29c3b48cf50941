-- ===== src/Auth/Hosts.antt =====
-- llist.c: `llist_free` with the callback `free_host` of cfg_file.y, which is how `find_host` picks
-- the session of a name: every other entry is freed, and the last one of that name is the answer.
use vtun.Common.{List, [], ◌∷◌, Bytes, Bool, Option, none, some, if◌then◌else◌}
use vtun.Common.Strings.{equal}
use vtun.Host.{VtunHost}

-- `f` answers whether it keeps an element; `ff` is the last one kept.
unfoldable pub llist_free {ℓ} : {A : Type ℓ} → (A → Bool) → List A → Option A → Option A
llist_free f [] ff = ff
llist_free f (d ∷ l) ff = llist_free f l (if f d then some d else ff)

unfoldable pub find_host : List VtunHost → Bytes → Option VtunHost
unfolding llist_free
find_host hosts name = llist_free (λ h. equal h.host name) hosts none
