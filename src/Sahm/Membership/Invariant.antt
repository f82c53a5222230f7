-- ===== src/Sahm/Membership/Invariant.antt =====
-- What the control channel says of the live readers, whatever happens on the channel.
use sim_library_v.Prelude.{
  ℕ, ◌≤◌, ◌≡◌, ◌⊎◌, ◌↔◌, inl, inr, refl, add32, sub32, true, false, none, some, List, [], ◌∷◌,
  String, length, arith, Bool-cases,
}
use sim_library_v.Prelude.Int.{ℤ}
use sim_library_v.Os.{is_null}
use sim_library_v.Sahm.Ring.{Ring}
use sim_library_v.Sahm.Control.{Control, Entry, claim, release, max_readers}
use sim_library_v.Sahm.Register.{count_active, Claimed, claim_takes_free, release_frees}
use sim_library_v.Sahm.Reader
use sim_library_v.Sahm.Reader.{Reader}
use sim_library_v.Sahm.Writer
use sim_library_v.Sahm.Writer.{Writer, no_entry, replicate, Rings, Find, Written, discover_readers}
use sim_library_v.Sahm.Membership.{
  System, Picks, Step, join, refuse, leave, publish, Reach, here, next,
}
use sim_library_v.Sahm.Membership.Hold.{Hold, release_others, Hold-others, Avoids-free, Hold-Picked}

pub record IsMembership (x : System) : Type 0 where
  size : length x.control.entries ≡ max_readers
  pub count : x.control.num_readers ≡ count_active x.control.entries
  pub all : length x.readers ≡ count_active x.control.entries
  hold : Hold x.control.entries x.readers

pub count_active-bound : (es : List Entry) → count_active es ≤ length es
count_active-bound [] = omega arith
count_active-bound (e ∷ es) = ground (arith, count_active-bound es)

-- A reader that took a place.
record Joined (c : Control) (name : String) (n : ℕ) (i : Reader.Init) : Type 0 where
  claimed : Claimed name n 0 c.entries
  control : i.control ≡ record c { entries = claimed.after; num_readers = add32 c.num_readers 1 }
  slot : i.reader.my_slot_idx ≡ some claimed.place
  ready : i.reader.is_initialized ≡ true
  header : is_null i.reader.header ≡ false

-- What `init` does to the control channel.
init_lem :
    (cut : String → String) (a : Reader.Answers) (channel mine : String) (max n : ℕ) (c : Control)
    (ring : Ring) (i : Reader.Init)
    → Reader.init cut a (Reader.new channel mine max n) c ring ≡ i
    → ((i.result ≡ false) × (i.control ≡ c)) ⊎ ((i.result ≡ true) × Joined c (cut mine) n i)
unfolding Reader.init Reader.new Reader.init_opened Reader.init_mapped Reader.init_checked
    Reader.init_created Reader.init_truncated Reader.init_buffer Reader.init_registered
init_lem cut a channel mine max n c ring i e = elim (Bool-cases i.result) [
  | inr failed ↦ inl (failed, ground (arith, e, failed))
  | inl done ↦ elim (claim_takes_free (cut mine) n 0 c.entries) [
    | inl full ↦ ground (arith, e, done, full)
    | inr k ↦
        let taken : claim (cut mine) n 0 c.entries ≡ some (k.place, k.after) =
          ground (arith, k.returns) in
        inr (
          done,
          record {
            claimed = k;
            control = ground (arith, e, done, taken);
            slot = ground (arith, e, done, taken);
            ready = ground (arith, e, done, taken);
            header = ground (arith, e, done, taken);
          },
        )
  ]
]

abbrev blank : Entry
blank = record { name = none; active = false; ring_size = 0 }

join-IsMembership :
    (x : System) (name : String) (n : ℕ) (i : Reader.Init)
    → IsMembership x
    → Joined x.control name n i
    → IsMembership (record { control = i.control; readers = i.reader ∷ x.readers })
join-IsMembership x name n i v j =
    let k = j.claimed in
    let apart = Avoids-free x.control.entries k.place blank x.readers (k.free blank) v.hold in
    let bound = count_active-bound k.after in
    rw j.control (record {
      size = omega (arith, k.size, v.size);
      count = omega (arith, k.count, v.count, bound, k.size, v.size);
      all = omega (arith, k.count, v.all);
      hold = (
        record {
          ready = j.ready;
          header = j.header;
          place = k.place;
          slot = j.slot;
          below = omega (arith, k.below, k.size);
          active = λ d. ground (arith, k.taken d);
        },
        rw j.slot apart,
        Hold-others x.control.entries k.after k.place x.readers k.size k.others apart v.hold,
      );
    })

leave-IsMembership :
    (x : System) (r : Reader) (rest : List Reader)
    → IsMembership x
    → Picks x.readers r rest
    → IsMembership (record { control = (Reader.drop r x.control).0; readers = rest })
unfolding Reader.drop
leave-IsMembership x r rest v p =
    let k = Hold-Picked x.control.entries p v.hold in
    let m = k.member in
    let (count, size, free) =
      release_frees x.control.entries m.place blank m.below (m.active blank) in
    let left : (Reader.drop r x.control).0 ≡ record x.control {
      entries = release m.place x.control.entries;
      num_readers = sub32 x.control.num_readers 1;
    } =
      ground (arith, m.ready, m.header, m.slot) in
    let bound = count_active-bound x.control.entries in
    rw left (record {
      size = omega (arith, size, v.size);
      count = omega (arith, count, v.count, bound, v.size);
      all = omega (arith, count, v.all, k.fewer);
      hold =
          Hold-others x.control.entries (release m.place x.control.entries) m.place rest size
            (release_others x.control.entries m.place) (rw m.slot at k.apart) k.hold;
    })

-- A write leaves the places alone.
write_lem :
    (now : ℤ) (fs : List Find) (w : Writer) (c : Control) (rings : Rings) (bytes : List ℕ)
    (size : ℕ) (y : Written)
    → Writer.write now fs w c rings bytes size ≡ some y
    → (y.control.entries ≡ c.entries) × (y.control.num_readers ≡ c.num_readers)
unfolding Writer.write
write_lem now fs w c rings bytes size y e = ground (arith, e)

Step-IsMembership : {x y : System} → Step x y → IsMembership x → IsMembership y
Step-IsMembership (join x cut a channel mine max n ring i e done) v =
    elim (init_lem cut a channel mine max n x.control ring i e) [
      | inl failed ↦ ground (arith, failed, done)
      | inr joined ↦ join-IsMembership x (cut mine) n i v joined.1
    ]
Step-IsMembership (refuse x cut a channel mine max n ring i e failed) v =
    elim (init_lem cut a channel mine max n x.control ring i e) [
      | inl same ↦ rw same.1 v
      | inr joined ↦ ground (arith, failed, joined.0)
    ]
Step-IsMembership (leave x r rest p) v = leave-IsMembership x r rest v p
Step-IsMembership (publish x now fs w rings bytes size y e) v =
    let (entries, number) = write_lem now fs w x.control rings bytes size y e in
    record {
      size = rw entries v.size;
      count = rw (entries, number) v.count;
      all = rw entries v.all;
      hold = rw entries v.hold;
    }

Reach-IsMembership : {x y : System} → IsMembership x → Reach x y → IsMembership y
Reach-IsMembership v here = v
Reach-IsMembership v (next r s) = Step-IsMembership s (Reach-IsMembership v r)

-- A new control channel has no active place.
start_lem :
    (a : Writer.Answers) (channel : String) (max : ℕ) (c : Control)
    → (Writer.init a (Writer.new channel max) c).result ≡ true
    → let i = Writer.init a (Writer.new channel max) c in
      (i.control.entries ≡ replicate max_readers no_entry) × (i.control.num_readers ≡ 0)
unfolding Writer.init Writer.new Writer.init_opened Writer.init_truncated Writer.init_mapped
start_lem a channel max c done = (ground (arith, done), ground (arith, done))

start-IsMembership :
    (a : Writer.Answers) (channel : String) (max : ℕ) (c : Control)
    → (Writer.init a (Writer.new channel max) c).result ≡ true
    → IsMembership
        (record { control = (Writer.init a (Writer.new channel max) c).control; readers = [] })
start-IsMembership a channel max c done =
    let (entries, number) = start_lem a channel max c done in
    record {
      size = rw entries refl;
      count = rw (entries, number) refl;
      all = rw entries refl;
      hold = tt;
    }

-- However readers are initialized and destroyed and frames written on a channel that a writer's
-- `init` set up, in any order: the control channel's number of readers is the number of readers
-- that were initialized with success and still live, and it is at most 16. The registration in a
-- place, the last step of a reader's `init`, fails exactly if 16 readers live.
pub membership :
    (a : Writer.Answers) (channel : String) (max : ℕ) (c : Control) (x : System) (name : String)
    (n : ℕ)
    → (Writer.init a (Writer.new channel max) c).result ≡ true
    → Reach
        (record { control = (Writer.init a (Writer.new channel max) c).control; readers = [] })
        x
    → (x.control.num_readers ≡ length x.readers)
      × (length x.readers ≤ max_readers)
      × ((claim name n 0 x.control.entries ≡ none) ↔ (length x.readers ≡ max_readers))
membership a channel max c x name n done reached =
    let v = Reach-IsMembership (start-IsMembership a channel max c done) reached in
    let bound = count_active-bound x.control.entries in
    (
      omega (arith, v.count, v.all),
      omega (arith, v.all, v.size, bound),
      elim (claim_takes_free name n 0 x.control.entries) [
        | inl (full, used) ↦ (λ e. omega (arith, used, v.all, v.size), λ e. full)
        | inr k ↦ (
          λ e. ground (arith, e, k.returns),
          λ e.
              absurd (omega (arith, e, v.all, v.size, k.count, k.size, count_active-bound k.after)),
        )
      ],
    )
