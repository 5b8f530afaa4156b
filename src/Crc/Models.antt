-- ===== src/Crc/Models.antt =====
-- The preset models of LLOS/component/llos_crc.c.
use llos.Base.{true, false}
use llos.Crc.{Conf}

abbrev pub crc4_itu : Conf
crc4_itu = record {
  init_val = 0x00;
  final_xor = 0x00;
  poly = 0x03;
  width = 4;
  is_reverse_input = true;
  is_reverse_output = true;
}

abbrev pub crc5_epc : Conf
crc5_epc = record {
  init_val = 0x09;
  final_xor = 0x00;
  poly = 0x09;
  width = 5;
  is_reverse_input = false;
  is_reverse_output = false;
}

abbrev pub crc5_itu : Conf
crc5_itu = record {
  init_val = 0x00;
  final_xor = 0x00;
  poly = 0x15;
  width = 5;
  is_reverse_input = true;
  is_reverse_output = true;
}

abbrev pub crc5_usb : Conf
crc5_usb = record {
  init_val = 0x1f;
  final_xor = 0x1f;
  poly = 0x05;
  width = 5;
  is_reverse_input = true;
  is_reverse_output = true;
}

abbrev pub crc6_itu : Conf
crc6_itu = record {
  init_val = 0x00;
  final_xor = 0x00;
  poly = 0x03;
  width = 6;
  is_reverse_input = true;
  is_reverse_output = true;
}

abbrev pub crc7_mmc : Conf
crc7_mmc = record {
  init_val = 0x00;
  final_xor = 0x00;
  poly = 0x09;
  width = 7;
  is_reverse_input = false;
  is_reverse_output = false;
}

abbrev pub crc8 : Conf
crc8 = record {
  init_val = 0x00;
  final_xor = 0x00;
  poly = 0x07;
  width = 8;
  is_reverse_input = false;
  is_reverse_output = false;
}

abbrev pub crc8_itu : Conf
crc8_itu = record {
  init_val = 0x00;
  final_xor = 0x55;
  poly = 0x07;
  width = 8;
  is_reverse_input = false;
  is_reverse_output = false;
}

abbrev pub crc8_rohc : Conf
crc8_rohc = record {
  init_val = 0xff;
  final_xor = 0x00;
  poly = 0x07;
  width = 8;
  is_reverse_input = true;
  is_reverse_output = true;
}

abbrev pub crc8_maxim : Conf
crc8_maxim = record {
  init_val = 0x00;
  final_xor = 0x00;
  poly = 0x31;
  width = 8;
  is_reverse_input = true;
  is_reverse_output = true;
}

abbrev pub crc16_ibm : Conf
crc16_ibm = record {
  init_val = 0x0000;
  final_xor = 0x0000;
  poly = 0x8005;
  width = 16;
  is_reverse_input = true;
  is_reverse_output = true;
}

abbrev pub crc16_maxim : Conf
crc16_maxim = record {
  init_val = 0x0000;
  final_xor = 0xffff;
  poly = 0x8005;
  width = 16;
  is_reverse_input = true;
  is_reverse_output = true;
}

abbrev pub crc16_usb : Conf
crc16_usb = record {
  init_val = 0xffff;
  final_xor = 0xffff;
  poly = 0x8005;
  width = 16;
  is_reverse_input = true;
  is_reverse_output = true;
}

abbrev pub crc16_modbus : Conf
crc16_modbus = record {
  init_val = 0xffff;
  final_xor = 0x0000;
  poly = 0x8005;
  width = 16;
  is_reverse_input = true;
  is_reverse_output = true;
}

abbrev pub crc16_ccitt : Conf
crc16_ccitt = record {
  init_val = 0x0000;
  final_xor = 0x0000;
  poly = 0x1021;
  width = 16;
  is_reverse_input = true;
  is_reverse_output = true;
}

abbrev pub crc16_ccitt_false : Conf
crc16_ccitt_false = record {
  init_val = 0xffff;
  final_xor = 0x0000;
  poly = 0x1021;
  width = 16;
  is_reverse_input = false;
  is_reverse_output = false;
}

abbrev pub crc16_x25 : Conf
crc16_x25 = record {
  init_val = 0xffff;
  final_xor = 0xffff;
  poly = 0x1021;
  width = 16;
  is_reverse_input = true;
  is_reverse_output = true;
}

abbrev pub crc16_xmodem : Conf
crc16_xmodem = record {
  init_val = 0x0000;
  final_xor = 0x0000;
  poly = 0x1021;
  width = 16;
  is_reverse_input = false;
  is_reverse_output = false;
}

abbrev pub crc16_dnp : Conf
crc16_dnp = record {
  init_val = 0x0000;
  final_xor = 0xffff;
  poly = 0x3d65;
  width = 16;
  is_reverse_input = true;
  is_reverse_output = true;
}

abbrev pub crc32 : Conf
crc32 = record {
  init_val = 0xffffffff;
  final_xor = 0xffffffff;
  poly = 0x04c11db7;
  width = 32;
  is_reverse_input = true;
  is_reverse_output = true;
}

abbrev pub crc32_mpeg_2 : Conf
crc32_mpeg_2 = record {
  init_val = 0xffffffff;
  final_xor = 0x00000000;
  poly = 0x04c11db7;
  width = 32;
  is_reverse_input = false;
  is_reverse_output = false;
}
