-- ===== src/SdCard/Startup.antt =====
-- What sw/lib/hal/spi_sdcard.c meets while it starts an SD card: the card's phases, its answers to
-- the commands of `__spi_sdcard_activate`, and the SPI host's configuration.
use cheshire_fork.Base.{ℕ, zero, suc, ◌≡◌, List, [], ◌∷◌, true, false, tabulate, length}
use cheshire_fork.SpiHost.{SpiHost, Config, tx, dummy}
use cheshire_fork.SdCard.{Handle}
use cheshire_fork.SdCard.Command.{no_response}
use cheshire_fork.SdCard.Card.{Stream, Comes, IsLine}

-- The answer to a command: after a wait, the bytes of the response.
pub record IsAnswer (response : List ℕ) (s : Stream) : Type 0 where
  pub wait : ℕ
  pub comes : Comes no_response 8 wait s
  pub content : tabulate s wait (length response) ≡ response

-- A command frame that leads from a state of `Before`, through states in which the card is selected
-- and answers (`Open`), to one of `After`; the response is one of `Response`.
pub record IsExchange {D : Type 0} (host : SpiHost D) (h : Handle) (line : D → Stream)
    (Before Open After : D → Type 0) (frame : List ℕ) (Response : List ℕ → Type 0) : Type 0 where
  pub talks : IsLine host h Open line
  pub sends :
      (d : D)
      → Before d
      → (let r = host.transaction true h.csid (tx frame ∷ []) d in
          (r.code ≡ 0)
          × Open r.after
          × ((response : List ℕ) × Response response × IsAnswer response (line r.after)))
  pub closes :
      (d : D)
      → Open d
      → (let r = host.transaction false h.csid_dummy (dummy 8 ∷ []) d in
          (r.code ≡ 0) × After r.after)

-- The phases of a card from power-up on. A card that is `starting` with `k` rounds to go answers
-- `k` times that it is idle before it is `running`.
pub data Phase : Type 0 where
  cold fresh idle running described ready : Phase
  starting app : ℕ → Phase

-- A card that starts up in `rounds` rounds. `State` is by phase; so is `Open`, by the phase that
-- the command leads to. The frames are the six bytes of each command.
pub record IsStartup {D : Type 0} (host : SpiHost D) (h : Handle) (line : D → Stream)
    (State Open : Phase → D → Type 0) (rounds : ℕ) : Type 0 where
  pub wakes :
      (d : D)
      → State cold d
      → (let r = host.transaction true h.csid (dummy 80 ∷ []) d in
          (r.code ≡ 0) × State fresh r.after)
  pub go_idle :
      IsExchange host h line
        (State fresh)
        (Open idle)
        (State idle)
        (0x40 ∷ 0 ∷ 0 ∷ 0 ∷ 0 ∷ 0x95 ∷ [])
        (λ xs. xs ≡ 0x01 ∷ [])
  pub send_if_cond :
      IsExchange host h line
        (State idle)
        (Open (starting rounds))
        (State (starting rounds))
        (0x48 ∷ 0 ∷ 0 ∷ 0x01 ∷ 0xAA ∷ 0x87 ∷ [])
        (λ xs. xs ≡ 0x01 ∷ 0 ∷ 0 ∷ 0x01 ∷ 0xAA ∷ [])
  pub app_cmd :
      (k : ℕ)
      → IsExchange host h line
          (State (starting k))
          (Open (app k))
          (State (app k))
          (0x77 ∷ 0 ∷ 0 ∷ 0 ∷ 0 ∷ 0x65 ∷ [])
          (λ xs. length xs ≡ 1)
  pub op_cond_idle :
      (k : ℕ)
      → IsExchange host h line
          (State (app (suc k)))
          (Open (starting k))
          (State (starting k))
          (0x69 ∷ 0x40 ∷ 0 ∷ 0 ∷ 0 ∷ 0x77 ∷ [])
          (λ xs. xs ≡ 0x01 ∷ [])
  pub op_cond_done :
      IsExchange host h line
        (State (app zero))
        (Open running)
        (State running)
        (0x69 ∷ 0x40 ∷ 0 ∷ 0 ∷ 0 ∷ 0x77 ∷ [])
        (λ xs. xs ≡ 0 ∷ [])
  pub read_ocr :
      IsExchange host h line
        (State running)
        (Open described)
        (State described)
        (0x7A ∷ 0 ∷ 0 ∷ 0 ∷ 0 ∷ 0xFD ∷ [])
        (λ xs. length xs ≡ 5)
  pub set_block_len :
      IsExchange host h line
        (State described)
        (Open ready)
        (State ready)
        (0x50 ∷ 0 ∷ 0 ∷ 0x02 ∷ 0 ∷ 0x15 ∷ [])
        (λ xs. xs ≡ 0 ∷ [])

-- The SPI host's configuration: `Up` behind its initialisation, `On` once it is enabled, `Off`
-- while the outputs are disabled for the change of the clock.
pub record IsController {D : Type 0} (host : SpiHost D) (Up On Cold Started Off Ready : D → Type 0)
    : Type 0 where
  pub inits : (d : D) → (let r = host.init d in (r.0 ≡ 0) × Up r.1)
  pub resets : (d : D) → Up d → Up (host.reset d)
  pub configures :
      (c : Config) (csid : ℕ) (d : D)
      → Up d
      → (let r = host.configure_cs c csid d in (r.0 ≡ 0) × Up r.1)
  pub enables : (d : D) → Up d → On (host.enable true d)
  pub outputs : (d : D) → On d → (let r = host.output_set_enabled true d in (r.0 ≡ 0) × Cold r.1)
  pub disables :
      (d : D) → Started d → (let r = host.output_set_enabled false d in (r.0 ≡ 0) × Off r.1)
  pub reconfigures :
      (c : Config) (csid : ℕ) (d : D)
      → Off d
      → (let r = host.configure_cs c csid d in (r.0 ≡ 0) × Off r.1)
  pub reenables :
      (d : D) → Off d → (let r = host.output_set_enabled true d in (r.0 ≡ 0) × Ready r.1)
