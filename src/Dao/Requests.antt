-- ===== src/Dao/Requests.antt =====
-- chats/p2p/server/dao/dao.c: the requests and the buffer that they are written to.
use chats.Prelude.{
  ℕ, zero, suc, ◌+◌, ◌-◌, ◌≤◌, ◌<◌, max, ◌≡◌, ◌≢◌, refl, Bool, true, false, none, some, List, [],
  ◌∷◌, ◌++◌, ◌==◌, if◌then◌else◌, arith, length, length-append, leb, ltb, take, inl, inr,
  Bool-cases,
}
use chats.Prelude.Int.{ℤ, pos}
use chats.Prelude.Text.{text, pad, length-pad, length-decimal}
use chats.LinkedList.{null}
use chats.LinkedList.Links.{not_null}
use chats.Dao.{
  DaoClient, Dao, Sqlite, sqlite_ok, buffer_length, fetch, execute, remove_client,
  add_client_request, remove_client_by_nickname_request, remove_client_by_addr_request,
  remove_client_by_id_request, dao_add_client, dao_remove_client_by_id,
  dao_remove_client_by_nickname, dao_remove_client_by_addr,
}

-- A client whose texts fit the arrays of a `dao_client_t`.
pub record Fits (c : DaoClient) : Type 0 where
  pub nickname : length c.nickname ≤ 15
  pub host : length c.host ≤ 255
  pub port : length c.port ≤ 5

length-take : (n : ℕ) (xs : List ℕ) → length (take n xs) ≤ n
length-take zero xs = omega arith
length-take (suc n) [] = omega arith
length-take (suc n) (x ∷ xs) = omega (arith, length-take n xs)

-- What is copied from a row fits.
pub fetch-Fits : (row : DaoClient) → Fits (fetch row)
fetch-Fits row = record {
  nickname = length-take 15 row.nickname;
  host = length-take 255 row.host;
  port = length-take 5 row.port;
}

-- The object behind a request that SQLite was given.
abbrev pub ran : (request : List ℕ) → Dao → Dao
ran request dao = record dao { executed = dao.executed ++ (dao.db, request) ∷ [] }

-- An open object: a request that fits the buffer with its terminator is run, once, and a longer one
-- is written behind the end of the buffer.
execute-fits :
    (sqlite : Sqlite) (request : List ℕ) (dao : Dao)
    → dao.db ≢ null
    → execute sqlite request dao ≡ (
        if ltb (length request) buffer_length
        then some (sqlite.exec dao.db request == sqlite_ok, ran request dao)
        else none)
unfolding execute
execute-fits sqlite request dao n =
    let unlocks : dao.mtx + 1 - 1 ≡ dao.mtx = omega arith in
    elim (Bool-cases (leb buffer_length (length request))) [
      | inl long ↦
          let short' : ltb (length request) buffer_length ≡ false = ground arith in
          simp (not_null dao.db n, long, short') refl
      | inr short ↦
          let short' : ltb (length request) buffer_length ≡ true = ground arith in
          simp (not_null dao.db n, short, short', unlocks) refl
    ]

length-add_client_request :
    (c : DaoClient)
    → length (add_client_request c)
      ≡ 62 + (length (pad 15 c.nickname) + (length (pad 256 c.host) + length (pad 5 c.port)))
length-add_client_request c =
    let t : List ℕ = text "', '" in
    omega (
      arith,
      length-append (pad 15 c.nickname ++ t ++ pad 256 c.host ++ t ++ pad 5 c.port) (text "')"),
      length-append (pad 15 c.nickname ++ t ++ pad 256 c.host ++ t) (pad 5 c.port),
      length-append (pad 15 c.nickname ++ t ++ pad 256 c.host) t,
      length-append (pad 15 c.nickname ++ t) (pad 256 c.host),
      length-append (pad 15 c.nickname) t,
    )

length-by_nickname :
    (nickname : List ℕ)
    → length (remove_client_by_nickname_request nickname) ≡ 39 + length (pad 15 nickname)
length-by_nickname nickname = omega (arith, length-append (pad 15 nickname) (text "'"))

length-by_addr :
    (host port : List ℕ)
    → length (remove_client_by_addr_request host port)
      ≡ 49 + (length (pad 256 host) + length (pad 5 port))
length-by_addr host port = omega (
  arith,
  length-append (pad 256 host ++ text "' AND port = '" ++ pad 5 port) (text "'"),
  length-append (pad 256 host ++ text "' AND port = '") (pad 5 port),
  length-append (pad 256 host) (text "' AND port = '"),
)

remove_client-Outcome :
    (sqlite : Sqlite) (dao : Dao) (request : List ℕ) (fits : Bool)
    → dao.db ≢ null
    → ltb (length request) buffer_length ≡ fits
    → remove_client sqlite request (some dao)
      ≡ (if fits then some (some (ran request dao)) else none)
remove_client-Outcome sqlite dao request true n e = simp (execute-fits sqlite request dao n, e) refl
remove_client-Outcome sqlite dao request false n e =
    simp (execute-fits sqlite request dao n, e) refl

add_client_request-room :
    (c : DaoClient) → Fits c → ltb (length (add_client_request c)) buffer_length ≡ true
add_client_request-room c f =
    let fits : length (add_client_request c) < 1024 = omega (
      arith,
      length-add_client_request c,
      length-pad 15 c.nickname,
      length-pad 256 c.host,
      length-pad 5 c.port,
      f.nickname,
      f.host,
      f.port,
    ) in
    ground (arith, fits)

-- `dao_add_client` of an open object, with a client whose texts fit the arrays of a `dao_client_t`, as
-- those of a row copied do: the request fits the buffer, so it is run, once, and the result is the
-- identifier of the row where SQLite takes the request, and 0 where it does not. Of an object that
-- is not open the result is 0, and nothing is run. The mutex is given back.
pub dao_add_client-Outcome :
    (sqlite : Sqlite) (dao : Dao) (c : DaoClient)
    → dao.db ≢ null
    → Fits c
    → (dao_add_client sqlite (some dao) c
        ≡ some (
          if sqlite.exec dao.db (add_client_request c) == sqlite_ok
              then sqlite.last_insert_rowid dao.db
              else pos 0,
          some (ran (add_client_request c) dao),
        ))
      × (dao_add_client sqlite (some (record dao { db = null })) c
          ≡ some (pos 0, some (record dao { db = null })))
      × Fits (fetch c)
unfolding dao_add_client execute
dao_add_client-Outcome sqlite dao c n f =
    let unlocks : dao.mtx + 1 - 1 ≡ dao.mtx = omega arith in
    (
      simp (execute-fits sqlite (add_client_request c) dao n, add_client_request-room c f) refl,
      simp unlocks refl,
      fetch-Fits c,
    )

-- The removals of an open object run their request, once, where it fits the buffer. That by the
-- identifier always does; that by the nickname does up to a nickname of 984 characters, and that
-- by the address as long as both texts, each as wide as its field at least, have 974 together.
-- Behind that the buffer is overrun.
pub dao_remove_client-Outcome :
    (sqlite : Sqlite) (dao : Dao) (id : ℤ) (nickname host port : List ℕ)
    → dao.db ≢ null
    → (dao_remove_client_by_id sqlite (some dao) id
        ≡ some (some (ran (remove_client_by_id_request id) dao)))
      × (dao_remove_client_by_nickname sqlite (some dao) nickname ≡ (
          if leb (length nickname) 984
          then some (some (ran (remove_client_by_nickname_request nickname) dao))
          else none))
      × (dao_remove_client_by_addr sqlite (some dao) host port ≡ (
          if leb (max 256 (length host) + max 5 (length port)) 974
          then some (some (ran (remove_client_by_addr_request host port) dao))
          else none))
unfolding dao_remove_client_by_id dao_remove_client_by_nickname dao_remove_client_by_addr
dao_remove_client-Outcome sqlite dao id nickname host port n =
    let by_id : length (remove_client_by_id_request id) < 1024 = omega (arith, length-decimal id) in
    let by_nickname : ltb (length (remove_client_by_nickname_request nickname)) buffer_length
        ≡ leb (length nickname) 984 =
      ground (arith, length-by_nickname nickname, length-pad 15 nickname) in
    let by_addr : ltb (length (remove_client_by_addr_request host port)) buffer_length
        ≡ leb (max 256 (length host) + max 5 (length port)) 974 =
      ground (arith, length-by_addr host port, length-pad 256 host, length-pad 5 port) in
    (
      remove_client-Outcome sqlite dao (remove_client_by_id_request id) true n (ground arith),
      remove_client-Outcome sqlite dao (remove_client_by_nickname_request nickname)
          (leb (length nickname) 984) n by_nickname,
      remove_client-Outcome sqlite dao (remove_client_by_addr_request host port)
          (leb (max 256 (length host) + max 5 (length port)) 974) n by_addr,
    )
