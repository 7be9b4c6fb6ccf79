-- ===== src/Qt.antt =====
-- What the program takes from Qt and does not implement: QVariant, QMetaType, the wire format of
-- QDataStream, the formatting of QString::arg. `V` is QVariant. An `int` is given by its bit
-- pattern below 2 ^ 32, a pointer and a handle by a number, a byte by a number below 256.
use Prim.Native.Char.{Char, code}
use qt_rpc.Base.{ℕ, ◌<◌, ◌≤◌, ◌^◌, ◌≡◌, ◌≢◌, String, Bool, true, false, List, ◌∷◌, ◌++◌}
use qt_rpc.Base.Text.{chars}
use qt_rpc.Base.Table.{is_in}
use qt_rpc.Base.{All, length}

abbrev pub Bytes : Type 0
Bytes = List ℕ

-- `stream << a` and `stream >> a`. Reading is total: past the end of the data QDataStream yields a
-- default value, and the program never looks at its status.
pub record Codec (A : Type 0) : Type 0 where
  pub put : A → Bytes
  pub get : Bytes → A × Bytes

pub record Qt (V : Type 0) : Type 0 where
  pub is_space : Char → Bool
  -- QString("%1(%2)").arg(name).arg(args)
  pub format_call : String → String → String
  -- the texts of Signature::test
  pub count_complaint : ℕ → ℕ → String
  pub type_complaint : ℕ → String → String → ℕ → ℕ → String
  -- the texts that ProxyBase::callMetacall and others build around a name
  pub complaint : String → String → String
  -- QMetaType::type and QMetaType::isRegistered
  pub type_id : String → ℕ
  pub is_registered : ℕ → Bool
  -- v.typeName(), and v.type() == QVariant::String
  pub type_name : V → String
  pub is_text : V → Bool
  pub null : V
  pub of_uint : ℕ → V
  pub of_int : ℕ → V
  pub of_bool : Bool → V
  pub of_text : String → V
  pub of_texts : List String → V
  pub of_token : ℕ → V
  -- a QList<Signature>, as names and argument types
  pub of_signatures : List (String × List String) → V
  pub to_uint : V → ℕ
  pub to_int : V → ℕ
  pub to_bool : V → Bool
  pub to_text : V → String
  pub to_token : V → ℕ
  -- a QUrl: its path, user name and password
  pub to_url : V → String × String × String
  pub u32 : Codec ℕ
  pub size64 : Codec ℕ
  pub string : Codec String
  pub strings : Codec (List String)
  pub variant : Codec V
  pub variants : Codec (List V)
  pub flag : Codec Bool
  pub entries : Codec (List (String × V))
  -- the key at which the iteration of a QHash with these keys begins
  pub begin : List ℕ → ℕ

abbrev pub Reads : {A : Type 0} → Codec A → A → Type 0
Reads c a = (rest : Bytes) → c.get (c.put a ++ rest) ≡ (a, rest)

abbrev pub NoMark : String → Type 0
NoMark s = All (λ c. code c ≢ b'%') (chars s)

-- What the program relies on.
pub record IsQt {V : Type 0} (q : Qt V) : Type 0 where
  -- a value that is read behind what was written for it comes back, and the rest is left
  pub u32_reads : (n : ℕ) → n < 2 ^ 32 → Reads q.u32 n
  pub size64_reads : (n : ℕ) → n < 2 ^ 63 → Reads q.size64 n
  -- a qint64 takes eight bytes, whatever follows it
  pub size64_length : (n : ℕ) → length (q.size64.put n) ≡ 8
  pub size64_exact :
      (b rest : Bytes) → length b ≡ 8 → q.size64.get (b ++ rest) ≡ ((q.size64.get b).0, rest)
  pub string_reads : (s : String) → Reads q.string s
  pub strings_reads : (ss : List String) → Reads q.strings ss
  pub variant_reads : (v : V) → Reads q.variant v
  pub variants_reads : (vs : List V) → Reads q.variants vs
  pub flag_reads : (b : Bool) → Reads q.flag b
  pub entries_reads : (m : List (String × V)) → Reads q.entries m
  -- a name with no place marker is put before the arguments as it stands
  pub format_plain :
      (name args : String)
      → NoMark name
      → chars (q.format_call name args) ≡ chars name ++ (chars "(" ++ (chars args ++ chars ")"))
  pub to_uint-of_uint : (n : ℕ) → n < 2 ^ 32 → q.to_uint (q.of_uint n) ≡ n
  pub to_int-of_uint : (n : ℕ) → n < 2 ^ 32 → q.to_int (q.of_uint n) ≡ n
  pub to_int-of_int : (n : ℕ) → n < 2 ^ 32 → q.to_int (q.of_int n) ≡ n
  pub to_text-of_text : (s : String) → q.to_text (q.of_text s) ≡ s
  pub to_token-of_token : (t : ℕ) → q.to_token (q.of_token t) ≡ t
  pub count_complaint-ne_nil : (m n : ℕ) → q.count_complaint m n ≢ ""
  pub letter_is_no_space : (c : Char) → 65 ≤ code c → code c < 128 → q.is_space c ≡ false
  pub begin_in : (k : ℕ) (ks : List ℕ) → is_in (q.begin (k ∷ ks)) (k ∷ ks) ≡ true
  pub type_complaint-ne_nil :
      (i : ℕ) (given wanted : String) (m n : ℕ) → q.type_complaint i given wanted m n ≢ ""
