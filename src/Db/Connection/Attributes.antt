-- ===== src/Db/Connection/Attributes.antt =====
-- The connection string of src/db.py, as the attributes that are read from it.
use Prim.Native.String.append
use package.text.Mathlib.TextLemmas.{append_assoc}
use sql_observability.Base.{
  ◌≡◌, refl, ap, ◌∙◌, String, ◌<>◌, Bool, true, false, none, some, List, [], ◌∷◌, All, map,
  Bool-cases, inl, inr, arith, ◌||◌,
}
use sql_observability.Py.Errors.{ok}
use sql_observability.Py.Text.{join}
use sql_observability.Py.Yaml.{Yaml, text, bool, null, Fields, get_or, subscript}
use sql_observability.Db.Connection.{
  Credentials, or_else, yes_no, format, auth_parts, build_connection_string,
}
use sql_observability.Db.Connection.Safety.{integrated, given}
use sql_observability.Db.Connection.Grammar.{
  first_of, read, read_attributes, name, lacks, is_plain, equals, semicolon, close, open_brace,
  one-append, read-name, read-start, read-start_last, read-braced,
}

-- The attributes that are meant.
abbrev pub credential_attributes : Credentials → List (String × String)
credential_attributes none = []
credential_attributes (some (user, password)) = ("UID", user) ∷ ("PWD", password) ∷ []

abbrev pub authentication : Bool → Credentials → List (String × String)
authentication true c = ("Trusted_Connection", "yes") ∷ []
authentication false c = credential_attributes c

-- Those after the driver.
abbrev pub other_attributes : (Yaml → String) → Fields → Credentials → Yaml → List (String × String)
other_attributes str fs c server =
    ("SERVER", format str server)
    ∷ ("DATABASE", format str (get_or fs "database" (text "master")))
    ∷ ("Encrypt", yes_no (get_or fs "encrypt" (bool true)))
    ∷ ("TrustServerCertificate", yes_no (get_or fs "trust_server_certificate" (bool false)))
    ∷ authentication (integrated fs) c

-- No value has a semicolon or begins with a brace.
abbrev pub ArePlain : List (String × String) → Type 0
ArePlain attributes = All (λ (a : String × String). is_plain a.1 ≡ true) attributes

-- `name=value`
abbrev written : String × String → String
written (k, v) = k <> "=" <> v

-- A name without the two signs.
abbrev IsName : String → Type 0
IsName k = (lacks 59 k ≡ true) × (lacks 61 k ≡ true)

read-written :
    (k v : String) → IsName k → is_plain v ≡ true → read_attributes (written (k, v)) ≡ (k, v) ∷ []
unfolding read_attributes
read-written k v named plain =
    ap (λ x. first_of (read name (k <> x))) (one-append equals v)
    ∙ ap first_of (read-name k v named.0 named.1)
    ∙ ap (λ r. first_of (k, r.1)) (read-start_last v plain)

read-written_next :
    (k v t : String)
    → IsName k
    → is_plain v ≡ true
    → read_attributes (written (k, v) <> (";" <> t)) ≡ (k, v) ∷ read_attributes t
unfolding read_attributes
read-written_next k v t named plain =
    ap read_attributes (
      append_assoc k ("=" <> v) (";" <> t)
      ∙ ap (λ x. k <> x)
          (append_assoc "=" v (";" <> t)
            ∙ one-append equals (v <> (";" <> t))
            ∙ ap (λ x. String.◌∷◌ equals (v <> x)) (one-append semicolon t)))
    ∙ ap first_of (read-name k (v <> String.◌∷◌ semicolon t) named.0 named.1)
    ∙ ap (λ r. first_of (k, r.1)) (read-start v t plain)

read_attributes-written :
    (a : String × String) (bs : List (String × String))
    → All (λ (b : String × String). IsName b.0) (a ∷ bs)
    → ArePlain (a ∷ bs)
    → read_attributes (join ";" (map written (a ∷ bs))) ≡ a ∷ bs
unfolding join
read_attributes-written (k, v) [] names plain = read-written k v names.0 plain.0
read_attributes-written (k, v) (b ∷ bs) names plain =
    read-written_next k v (join ";" (map written (b ∷ bs))) names.0 plain.0
    ∙ ap (λ (xs : List (String × String)). (k, v) ∷ xs)
        (read_attributes-written b bs names.1 plain.1)

-- The driver stands in braces, and something follows it.
read-driver :
    (d t : String)
    → lacks 125 d ≡ true
    → read_attributes (("DRIVER={" <> (d <> "}")) <> (";" <> t)) ≡ ("DRIVER", d) ∷ read_attributes t
unfolding read_attributes read lacks
read-driver d t plain =
    ap read_attributes (
      append_assoc "DRIVER={" (d <> "}") (";" <> t)
      ∙ ap (λ x. "DRIVER={" <> x)
          (append_assoc d "}" (";" <> t)
            ∙ ap (λ x. d <> x)
                (one-append close (";" <> t) ∙ ap (String.◌∷◌ close) (one-append semicolon t)))
      ∙ append_assoc "DRIVER" "={" (d <> String.◌∷◌ close (String.◌∷◌ semicolon t))
      ∙ ap (λ x. "DRIVER" <> x)
          (append.cons equals "{" (d <> String.◌∷◌ close (String.◌∷◌ semicolon t))
            ∙ ap (String.◌∷◌ equals)
                (one-append open_brace (d <> String.◌∷◌ close (String.◌∷◌ semicolon t)))))
    ∙ ap first_of (
        read-name "DRIVER" (String.◌∷◌ open_brace (d <> String.◌∷◌ close (String.◌∷◌ semicolon t)))
          refl refl)
    ∙ ap (λ r. first_of ("DRIVER", r.1)) (read-braced d t plain)

-- The pieces that the code joins are the attributes, written out.
others-written :
    (server database encrypt trust : String) (rest : List (String × String))
    → ("SERVER=" <> server)
        ∷ ("DATABASE=" <> database)
        ∷ ("Encrypt=" <> encrypt)
        ∷ ("TrustServerCertificate=" <> trust)
        ∷ map written rest
      ≡ map written (
          ("SERVER", server)
          ∷ ("DATABASE", database)
          ∷ ("Encrypt", encrypt)
          ∷ ("TrustServerCertificate", trust)
          ∷ rest)
others-written server database encrypt trust rest =
    rw
      (
        append_assoc "SERVER" "=" server,
        append_assoc "DATABASE" "=" database,
        append_assoc "Encrypt" "=" encrypt,
        append_assoc "TrustServerCertificate" "=" trust,
      )
      refl

credentials-written :
    (fs : Fields) (c : Credentials)
    → (integrated fs || given c) ≡ true
    → auth_parts (λ v. "") fs c ≡ ok (map written (authentication (integrated fs) c))
unfolding auth_parts
credentials-written fs none h =
    let trusted : integrated fs ≡ true = ground (arith, h) in rw trusted refl
credentials-written fs (some (user, password)) h = elim (Bool-cases (integrated fs)) [
  | inl trusted ↦ rw trusted refl
  | inr by_login ↦ rw (by_login, append_assoc "UID" "=" user, append_assoc "PWD" "=" password) refl
]

authentication-IsName :
    (trusted : Bool) (c : Credentials)
    → All (λ (a : String × String). IsName a.0) (authentication trusted c)
unfolding lacks
authentication-IsName true c = ((refl, refl), tt)
authentication-IsName false none = tt
authentication-IsName false (some login) = ((refl, refl), ((refl, refl), tt))

-- Where the configuration has a driver, and a server or a name to stand for it, and the
-- authentication is integrated or there are credentials, the connection string is built. If the
-- driver has no closing brace, and no other value has a semicolon or begins with a brace, the
-- attributes that ODBC's grammar reads from it are those that are meant, in their order: the driver
-- comes first, and the credentials, or else Trusted_Connection, come last.
pub build_connection_string-attributes :
    (str : Yaml → String) (fs : Fields) (c : Credentials) (driver server : Yaml)
    → subscript fs "driver" ≡ ok driver
    → or_else (get_or fs "server" null) (subscript fs "name") ≡ ok server
    → (integrated fs || given c) ≡ true
    → lacks 125 (format str driver) ≡ true
    → ArePlain (other_attributes str fs c server)
    → (out : String) × (build_connection_string str fs c ≡ ok out)
      × (read_attributes out ≡ ("DRIVER", format str driver) ∷ other_attributes str fs c server)
unfolding build_connection_string lacks join
build_connection_string-attributes str fs c driver server driver_at server_at authenticated braced
      plain =
    let d = format str driver in
    let others = other_attributes str fs c server in
    (
      ("DRIVER={" <> (d <> "}")) <> (";" <> join ";" (map written others)),
      rw (driver_at, server_at, credentials-written fs c authenticated)
          (ap (λ ps. ok (join ";" (("DRIVER={" <> (d <> "}")) ∷ ps)))
            (others-written (format str server) _ _ _ (authentication (integrated fs) c))),
      read-driver d (join ";" (map written others)) braced
          ∙ ap (λ (xs : List (String × String)). ("DRIVER", d) ∷ xs)
              (read_attributes-written _ _
                (
                  (refl, refl),
                  (
                    (refl, refl),
                    ((refl, refl), ((refl, refl), authentication-IsName (integrated fs) c)),
                  ),
                )
                plain),
    )
