-- ===== src/Config/Client.antt =====
-- `ClientConfiguration` (include/tavernmx/client.h, src/client/clientconfiguration.cpp).
use tavernmx.Common.{
  ℕ, ◌≡◌, ◌↔◌, ◌⊎◌, inl, inr, ap, sym, refl, subst, arith, true, false, Bool-cases, Option, none,
  some, List, [], ◌∷◌, if◌then◌else◌,
}
use tavernmx.Common.Int.{ℤ, pos}
use tavernmx.Common.Text.{Text, lit}
use tavernmx.Common.Result.{Result, ok, err, Error, client_error, ◌>>=◌, bind_ok, bind_inv, ok_inj}
use tavernmx.Json.{Json, at, value_int, value_text}
use tavernmx.Config.{
  ConfigFile, parse, catch_parse_error, none_if_empty, wrap_u32, required_text, texts_of, SaysInt,
  SaysText, AreTexts, value_int_inv, value_int_ok, value_text_inv, value_text_ok, at_inv, at_ok,
  required_text_inv, required_text_ok, texts_of_inv, texts_of_ok, catch_inv, parse_inv,
}

pub record CustomFontConfiguration : Type 0 where
  pub font_size : ℕ
  pub en : Text
  pub jp : Text
  pub kr : Text
  pub cn : Text

pub record ClientConfiguration : Type 0 where
  pub host_name : Text
  pub host_port : ℤ
  pub log_level : Text
  pub log_file : Option Text
  pub custom_certificates : List Text
  pub custom_font : CustomFontConfiguration

abbrev pub no_font : CustomFontConfiguration
no_font = record { font_size = 0; en = []; jp = []; kr = []; cn = [] }

abbrev pub unopened : Error
unopened = client_error (lit "Unable to open config file")

abbrev pub unparsable : Error
unparsable = client_error (lit "Unable to parse config file")

abbrev pub no_host : Error
no_host = client_error (lit "server_host_name is required")

abbrev singleton : Option Text → List Text
singleton none = []
singleton (some s) = s ∷ []

module _ (json : Json) where
  open json use {Value}

  -- The value of `custom_certificates`: an array of strings, one string, or something else.
  unfoldable pub read_certificates : Value → Result (List Text)
  read_certificates c =
      if json.is_array c then texts_of json (json.elements c) else ok (singleton (json.get_text c))

  -- The fields of `custom_font`; the size is read as a `uint32_t`.
  unfoldable pub read_font_object : Value → Result CustomFontConfiguration
  read_font_object f = do
    font_size ← value_int json f (lit "font_size") (pos 12)
    en ← value_text json f (lit "en") []
    jp ← value_text json f (lit "jp") []
    kr ← value_text json f (lit "kr") []
    cn ← value_text json f (lit "cn") []
    ok (record { font_size = wrap_u32 font_size; en = en; jp = jp; kr = kr; cn = cn })

  unfoldable pub read_font : Value → Result CustomFontConfiguration
  read_font f = if json.is_object f then read_font_object f else ok no_font

  -- The body of the `try`, after the file is parsed.
  unfoldable pub read_client : Value → Result ClientConfiguration
  read_client v = do
    host_name ← required_text json no_host v (lit "server_host_name")
    host_port ← value_int json v (lit "server_host_port") (pos 8080)
    log_level ← value_text json v (lit "log_level") (lit "warn")
    log_file ← value_text json v (lit "log_file") []
    certificates ← at json v (lit "custom_certificates")
    custom_certificates ← read_certificates certificates
    font ← at json v (lit "custom_font")
    custom_font ← read_font font
    ok (record {
      host_name = host_name;
      host_port = host_port;
      log_level = log_level;
      log_file = none_if_empty log_file;
      custom_certificates = custom_certificates;
      custom_font = custom_font;
    })

  unfoldable pub load_client : ConfigFile Value → Result ClientConfiguration
  load_client f =
      if f.good then catch_parse_error unparsable (parse f.value >>= read_client) else err unopened

  -- What the value of `custom_font` has to say for the fonts to be `c`.
  pub record SaysFont (f : Value) (c : CustomFontConfiguration) : Type 0 where
    pub size : ℤ
    pub has_size : SaysInt json (json.field f (lit "font_size")) (pos 12) size
    pub size_wraps : c.font_size ≡ wrap_u32 size
    pub has_en : SaysText json (json.field f (lit "en")) [] c.en
    pub has_jp : SaysText json (json.field f (lit "jp")) [] c.jp
    pub has_kr : SaysText json (json.field f (lit "kr")) [] c.kr
    pub has_cn : SaysText json (json.field f (lit "cn")) [] c.cn

  -- What a value has to say for the configuration to be `c`.
  pub record Says (v : Value) (c : ClientConfiguration) : Type 0 where
    pub object : json.is_object v ≡ true
    pub host : Value
    pub has_host : json.field v (lit "server_host_name") ≡ some host
    pub host_text : json.get_text host ≡ some c.host_name
    pub port : SaysInt json (json.field v (lit "server_host_port")) (pos 8080) c.host_port
    pub level : SaysText json (json.field v (lit "log_level")) (lit "warn") c.log_level
    pub log_name : Text
    pub log : SaysText json (json.field v (lit "log_file")) [] log_name
    pub log_given : c.log_file ≡ none_if_empty log_name
    pub certificates : Value
    pub has_certificates : json.field v (lit "custom_certificates") ≡ some certificates
    pub certificate_texts :
        ((json.is_array certificates ≡ true)
          × AreTexts json (json.elements certificates) c.custom_certificates)
        ⊎ ((json.is_array certificates ≡ false)
            × (c.custom_certificates ≡ singleton (json.get_text certificates)))
    pub font : Value
    pub has_font : json.field v (lit "custom_font") ≡ some font
    pub font_says :
        ((json.is_object font ≡ true) × SaysFont font c.custom_font)
        ⊎ ((json.is_object font ≡ false) × (c.custom_font ≡ no_font))

  read_certificates_inv :
      (r : Value) (ss : List Text)
      → read_certificates r ≡ ok ss
      → ((json.is_array r ≡ true) × AreTexts json (json.elements r) ss)
        ⊎ ((json.is_array r ≡ false) × (ss ≡ singleton (json.get_text r)))
  unfolding read_certificates
  read_certificates_inv r ss h = elim (Bool-cases (json.is_array r)) [
    | inl e ↦
        let read : texts_of json (json.elements r) ≡ ok ss = rw e at h in
        inl (e, texts_of_inv json _ ss read)
    | inr e ↦
        let read : ok (singleton (json.get_text r)) ≡ ok ss = rw e at h in
        inr (e, sym (ok_inj read))
  ]

  read_certificates_ok :
      (r : Value) (ss : List Text)
      → ((json.is_array r ≡ true) × AreTexts json (json.elements r) ss)
        ⊎ ((json.is_array r ≡ false) × (ss ≡ singleton (json.get_text r)))
      → read_certificates r ≡ ok ss
  unfolding read_certificates
  read_certificates_ok r ss (inl (e, t)) = rw e (texts_of_ok json _ ss t)
  read_certificates_ok r ss (inr (e, n)) = rw (e, n)

  read_font_object_inv :
      (f : Value) (c : CustomFontConfiguration) → read_font_object f ≡ ok c → SaysFont f c
  unfolding read_font_object
  read_font_object_inv f c h =
      let (n, hn, h1) = bind_inv (value_int json f (lit "font_size") (pos 12)) _ h in
      let (en, he, h2) = bind_inv (value_text json f (lit "en") []) _ h1 in
      let (jp, hj, h3) = bind_inv (value_text json f (lit "jp") []) _ h2 in
      let (kr, hk, h4) = bind_inv (value_text json f (lit "kr") []) _ h3 in
      let (cn, hc, e) = bind_inv (value_text json f (lit "cn") []) _ h4 in
      subst (SaysFont f) (ok_inj e) (record {
        size = n;
        has_size = (value_int_inv json f _ _ n hn).1;
        size_wraps = refl;
        has_en = (value_text_inv json f _ _ en he).1;
        has_jp = (value_text_inv json f _ _ jp hj).1;
        has_kr = (value_text_inv json f _ _ kr hk).1;
        has_cn = (value_text_inv json f _ _ cn hc).1;
      })

  read_font_object_ok :
      (f : Value) (c : CustomFontConfiguration)
      → json.is_object f ≡ true
      → SaysFont f c
      → read_font_object f ≡ ok c
  unfolding read_font_object
  read_font_object_ok f c o s = bind_ok _ (value_int_ok json f _ _ s.size o s.has_size) (
      bind_ok _ (value_text_ok json f _ _ c.en o s.has_en) (
        bind_ok _ (value_text_ok json f _ _ c.jp o s.has_jp) (
          bind_ok _ (value_text_ok json f _ _ c.kr o s.has_kr) (
            bind_ok _ (value_text_ok json f _ _ c.cn o s.has_cn)
              (ap (λ n. ok (record c { font_size = n })) (sym s.size_wraps))))))

  read_font_inv :
      (f : Value) (c : CustomFontConfiguration)
      → read_font f ≡ ok c
      → ((json.is_object f ≡ true) × SaysFont f c) ⊎ ((json.is_object f ≡ false) × (c ≡ no_font))
  unfolding read_font
  read_font_inv f c h = elim (Bool-cases (json.is_object f)) [
    | inl e ↦
        let read : read_font_object f ≡ ok c = rw e at h in inl (e, read_font_object_inv f c read)
    | inr e ↦ let read : ok no_font ≡ ok c = rw e at h in inr (e, sym (ok_inj read))
  ]

  read_font_ok :
      (f : Value) (c : CustomFontConfiguration)
      → ((json.is_object f ≡ true) × SaysFont f c) ⊎ ((json.is_object f ≡ false) × (c ≡ no_font))
      → read_font f ≡ ok c
  unfolding read_font
  read_font_ok f c (inl (e, s)) = rw e (read_font_object_ok f c e s)
  read_font_ok f c (inr (e, n)) = rw (e, n)

  read_client_inv : (v : Value) (c : ClientConfiguration) → read_client v ≡ ok c → Says v c
  unfolding read_client
  read_client_inv v c h =
      let (n, hn, h1) = bind_inv (required_text json no_host v (lit "server_host_name")) _ h in
      let (p, hp, h2) = bind_inv (value_int json v (lit "server_host_port") (pos 8080)) _ h1 in
      let (l, hl, h3) = bind_inv (value_text json v (lit "log_level") (lit "warn")) _ h2 in
      let (g, hg, h4) = bind_inv (value_text json v (lit "log_file") []) _ h3 in
      let (k, hk, h5) = bind_inv (at json v (lit "custom_certificates")) _ h4 in
      let (ks, hks, h6) = bind_inv (read_certificates k) _ h5 in
      let (f, hf, h7) = bind_inv (at json v (lit "custom_font")) _ h6 in
      let (c', hc, e) = bind_inv (read_font f) _ h7 in
      let (nv, nf, nt) = required_text_inv json _ v _ hn in
      let (o, port) = value_int_inv json v _ _ p hp in
      subst (Says v) (ok_inj e) (record {
        object = o;
        host = nv;
        has_host = nf;
        host_text = nt;
        port = port;
        level = (value_text_inv json v _ _ l hl).1;
        log_name = g;
        log = (value_text_inv json v _ _ g hg).1;
        log_given = refl;
        certificates = k;
        has_certificates = (at_inv json v _ hk).1;
        certificate_texts = read_certificates_inv k ks hks;
        font = f;
        has_font = (at_inv json v _ hf).1;
        font_says = read_font_inv f c' hc;
      })

  read_client_ok : (v : Value) (c : ClientConfiguration) → Says v c → read_client v ≡ ok c
  unfolding read_client
  read_client_ok v c s =
      bind_ok _ (required_text_ok json no_host v _ s.host s.object s.has_host s.host_text) (
        bind_ok _ (value_int_ok json v _ _ _ s.object s.port) (
          bind_ok _ (value_text_ok json v _ _ _ s.object s.level) (
            bind_ok _ (value_text_ok json v _ _ _ s.object s.log) (
              bind_ok _ (at_ok json v _ s.object s.has_certificates) (
                bind_ok _ (read_certificates_ok s.certificates _ s.certificate_texts) (
                  bind_ok _ (at_ok json v _ s.object s.has_font) (
                    bind_ok _ (read_font_ok s.font _ s.font_says)
                      (ap (λ f. ok (record c { log_file = f })) (sym s.log_given)))))))))

  -- Exactly the files that can be opened and parsed and say what a configuration needs are loaded: an
  -- object with a string under `server_host_name`, something under `custom_certificates` and under
  -- `custom_font`, and well-formed values under the keys that are given. The configuration is then
  -- what the file says: certificates are those of an array, or the one of a string, or none; fonts
  -- are those of an object, of size 12 where it gives none, or none.
  pub load_client_iff :
      (f : ConfigFile Value) (c : ClientConfiguration)
      → (load_client f ≡ ok c) ↔ ((f.good ≡ true) × (v : Value) × (f.value ≡ some v) × Says v c)
  unfolding load_client
  load_client_iff f c = (
    λ h.
        let good : f.good ≡ true = ground arith in
        let opened : catch_parse_error unparsable (parse f.value >>= read_client) ≡ ok c =
          rw good at h in
        let (v, p, r) = bind_inv (parse f.value) read_client (catch_inv _ _ opened) in
        (good, v, parse_inv f.value p, read_client_inv v c r),
    λ (good, v, p, s). rw (good, p, read_client_ok v c s),
  )
