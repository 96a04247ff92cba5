-- ===== src/Redis/Client.antt =====
-- The client of the package redis that redis.cache.ts calls, as a parameter: the commands, and what they
-- do by their documentation. A command on a key that holds another type is refused (WRONGTYPE), but
-- `set` replaces what is there. Time does not pass: a key is not read after its expiration.
use moirae.Base.{
  ℕ, String, ◌===◌, if◌then◌else◌, Bool, true, false, Option, none, some, List, ◌≡◌, ◌&&◌, is_some,
}
use moirae.Base.Sets.{contains}
use moirae.Failure.{Error, ok, err, Action}

pub record Client (St : Type 0) : Type 0 where
  pub s_add : String → String → Action St ℕ
  pub s_rem : String → String → Action St ℕ
  pub s_members : String → Action St (List String)
  pub get : String → Action St (Option String)
  pub set : String → String → Action St (Option String)
  pub del : String → Action St ℕ
  pub expire : String → ℕ → Action St Bool

-- `text s k` is the text that the key `k` holds, and `member s k v` that it holds a set with `v`.
pub record ClientLaws {St : Type 0} (c : Client St) (text : St → String → Option String)
    (member : St → String → String → Bool) : Type 0 where
  pub s_add-set :
      (k v : String) (s : St)
      → text s k ≡ none
      → (c.s_add k v s).0 ≡ ok (if member s k v then 0 else 1)
  pub s_add-text :
      (k v : String) (s : St)
      → is_some (text s k) ≡ true
      → (e : Error) × (c.s_add k v s ≡ (err e, s))
  pub member-s_add :
      (k v j w : String) (s : St)
      → text s k ≡ none
      → member (c.s_add k v s).1 j w ≡ (if k === j && v === w then true else member s j w)
  pub text-s_add : (k v j : String) (s : St) → text (c.s_add k v s).1 j ≡ text s j
  pub s_rem-set :
      (k v : String) (s : St)
      → text s k ≡ none
      → (c.s_rem k v s).0 ≡ ok (if member s k v then 1 else 0)
  pub member-s_rem :
      (k v j w : String) (s : St)
      → text s k ≡ none
      → member (c.s_rem k v s).1 j w ≡ (if k === j && v === w then false else member s j w)
  pub text-s_rem : (k v j : String) (s : St) → text (c.s_rem k v s).1 j ≡ text s j
  pub s_members-set :
      (k : String) (s : St)
      → text s k ≡ none
      → (vs : List String) × (c.s_members k s ≡ (ok vs, s))
        × ((v : String) → contains v vs ≡ member s k v)
  pub set-ok : (k v : String) (s : St) → (c.set k v s).0 ≡ ok (some "OK")
  pub text-set :
      (k v j : String) (s : St) → text (c.set k v s).1 j ≡ (if k === j then some v else text s j)
  pub member-set :
      (k v j w : String) (s : St)
      → member (c.set k v s).1 j w ≡ (if k === j then false else member s j w)
  pub text-del :
      (k j : String) (s : St) → text (c.del k s).1 j ≡ (if k === j then none else text s j)
  pub member-del :
      (k j w : String) (s : St)
      → member (c.del k s).1 j w ≡ (if k === j then false else member s j w)
  pub del-ok : (k : String) (s : St) → (n : ℕ) × ((c.del k s).0 ≡ ok n)
  pub expire-ok : (k : String) (d : ℕ) (s : St) → (b : Bool) × ((c.expire k d s).0 ≡ ok b)
  pub text-expire : (k j : String) (d : ℕ) (s : St) → text (c.expire k d s).1 j ≡ text s j
  pub member-expire :
      (k j w : String) (d : ℕ) (s : St) → member (c.expire k d s).1 j w ≡ member s j w
