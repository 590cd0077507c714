-- ===== src/WidgetAuth/ToyCodec.antt =====
-- A codec for the tests: a response as a text that can be read back.
use Prim.Native.Char.{Char, code}
use Prim.Native.String as Str
use widget_demo.Prelude.{ℕ, zero, suc, String, true, false, ◌≡◌, refl, ap, Option, none, some, ◌=ℕ◌}
use widget_demo.WidgetAuth.{WidgetTokenResponse, ReplayCodec}
use widget_demo.WidgetAuth.Loaded.{IsCodec}

-- each character behind a mark, and another mark at the end
unfoldable pub write_text : String → String → String
write_text Str.[] rest = Str.◌∷◌ "0" rest
write_text (Str.◌∷◌ c s) rest = Str.◌∷◌ "1" (Str.◌∷◌ c (write_text s rest))

abbrev add_char : Char → Option (String × String) → Option (String × String)
add_char c none = none
add_char c (some (s, rest)) = some (Str.◌∷◌ c s, rest)

unfoldable pub read_text : String → Option (String × String)
read_text Str.[] = none
read_text (Str.◌∷◌ mark Str.[]) = elim (code mark =ℕ 48) [ true ↦ some ("", "") | false ↦ none ]
read_text (Str.◌∷◌ mark (Str.◌∷◌ c s)) = elim (code mark =ℕ 48) [
  | true ↦ some ("", Str.◌∷◌ c s)
  | false ↦ add_char c (read_text s)
]

read_text-write_text : (s rest : String) → read_text (write_text s rest) ≡ some (s, rest)
unfolding read_text write_text
read_text-write_text Str.[] Str.[] = refl
read_text-write_text Str.[] (Str.◌∷◌ c rest) = refl
read_text-write_text (Str.◌∷◌ c s) rest = ap (add_char c) (read_text-write_text s rest)

unfoldable pub write_number : ℕ → String → String
write_number zero rest = Str.◌∷◌ "0" rest
write_number (suc n) rest = Str.◌∷◌ "1" (write_number n rest)

abbrev add_one : Option (ℕ × String) → Option (ℕ × String)
add_one none = none
add_one (some (n, rest)) = some (suc n, rest)

unfoldable pub read_number : String → Option (ℕ × String)
read_number Str.[] = none
read_number (Str.◌∷◌ mark s) = elim (code mark =ℕ 48) [
  | true ↦ some (0, s)
  | false ↦ add_one (read_number s)
]

read_number-write_number :
    (n : ℕ) (rest : String) → read_number (write_number n rest) ≡ some (n, rest)
unfolding read_number write_number
read_number-write_number zero rest = refl
read_number-write_number (suc n) rest = ap add_one (read_number-write_number n rest)

abbrev bind : {A B : Type 0} → Option A → (A → Option B) → Option B
bind none f = none
bind (some a) f = f a

abbrev pub write_response : WidgetTokenResponse → String
write_response r = write_text r.access_token (
    write_number r.expires_in
      (write_text r.scope (write_text r.refresh_session_id (write_number r.refresh_after ""))))

abbrev pub read_response : String → Option WidgetTokenResponse
read_response s = bind (read_text s) (λ a. bind (read_number a.1) (λ b. bind (read_text b.1) (λ c.
    bind (read_text c.1) (λ d. bind (read_number d.1) (λ e. some (record {
      access_token = a.0;
      expires_in = b.0;
      scope = c.0;
      refresh_session_id = d.0;
      refresh_after = e.0;
    }))))))

abbrev pub toy_codec : ReplayCodec
toy_codec = record {
  print = write_response;
  parse = read_response;
  bound_to = λ key client request. request;
}

pub toy_codec-IsCodec : IsCodec toy_codec
toy_codec-IsCodec = record {
  reads = λ r.
      rw
        (
          read_text-write_text r.access_token _,
          read_number-write_number r.expires_in _,
          read_text-write_text r.scope _,
          read_text-write_text r.refresh_session_id _,
          read_number-write_number r.refresh_after _,
        )
        refl;
}
